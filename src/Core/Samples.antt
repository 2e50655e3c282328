-- ===== src/Core/Samples.antt =====
-- An allocator that grants every size, and a buffer, for the tests.
use vicarl.Prelude.{refl, true, inr, [], ◌∷◌, arith}
use vicarl.Core.Alloc.{Allocator, Grants}
use vicarl.Core.Writer.{Wbuf}
use vicarl.Core.Writer.Growth.{IsWbuf}

abbrev pub generous : Allocator
generous n = true

pub generous-Grants : Grants generous
generous-Grants = record { all = λ n h. refl }

abbrev pub two_bytes : Wbuf
two_bytes = record { bytes = 1 ∷ 2 ∷ []; cap = 256 }

pub two_bytes-IsWbuf : IsWbuf two_bytes
two_bytes-IsWbuf = record { within = omega arith; bounded = omega arith; start = inr (omega arith) }

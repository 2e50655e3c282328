-- ===== src/Core/Reader/Tests.antt =====
-- The theorems on the reader at concrete bytes.
use vicarl.Prelude.{◌+◌, ◌*◌, ◌%◌, ◌^◌, ◌≡◌, [], ◌∷◌, ◌++◌, arith}
use vicarl.Core.Types.{ok}
use vicarl.Core.Writer.{varu64_bytes}
use vicarl.Core.Reader.{Rbuf, varu64_rounds, rbuf_get_varu64}
use vicarl.Core.Reader.Cursor.{at}
use vicarl.Core.Reader.Varint.{get_varu64-at, varu64_tenth_byte}

get_varu64-at_example :
    rbuf_get_varu64 (at (9 ∷ []) (varu64_bytes 300 ++ 5 ∷ []))
    ≡ ok (300, at (9 ∷ varu64_bytes 300) (5 ∷ []))
get_varu64-at_example = get_varu64-at (9 ∷ []) (5 ∷ []) 300 (omega arith)

varu64_tenth_byte_example :
    varu64_rounds 1 (at [] (127 ∷ [])) 0 63 ≡ ok (0 + 127 % 2 * 2 ^ 63, at (127 ∷ []) [])
varu64_tenth_byte_example = varu64_tenth_byte [] [] 127 0 (omega arith) (omega arith)

abbrev cut : Rbuf
cut = record { contents = 1 ∷ 200 ∷ 200 ∷ []; pos = 1 }

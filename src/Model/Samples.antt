-- ===== src/Model/Samples.antt =====
-- Records for the tests.
use vicarl.Prelude.{
  ℕ, ◌<◌, refl, replicate, List, [], ◌∷◌, Option, some, length, length-append, arith,
}
use vicarl.Core.Types.{Slice, null, view}
use vicarl.Core.Writer.Leb.{length-varu64_bytes}
use vicarl.Core.Writer.Emit.{length-ldbytes}
use vicarl.Model.Record.{RecordMeta}
use vicarl.Model.Record.Layout.{record_layout, IsInput}

abbrev pub sample_meta : RecordMeta
sample_meta = record {
  namespace_utf8 = view (b'n' ∷ b's' ∷ []);
  schema_utf8 = null 0;
  author = replicate 32 7;
  seq = 300;
  timestamp_ms = 1700000000000;
}

abbrev pub sample_payload : Slice
sample_payload = view (1 ∷ 2 ∷ 3 ∷ [])

abbrev pub sample_sig : Option (List ℕ)
sample_sig = some (replicate 64 9)

pub sample-IsInput : IsInput sample_meta sample_payload sample_sig
sample-IsInput = record {
  namespace_valid = refl;
  schema_valid = refl;
  payload_valid = refl;
  author_32 = refl;
  seq_64 = omega arith;
  timestamp_64 = omega arith;
  sig_64 = refl;
  namespace_len = omega arith;
  schema_len = omega arith;
  payload_len = omega arith;
}

abbrev pub sample_bytes : List ℕ
sample_bytes = record_layout sample_meta sample_payload sample_sig

pub sample_bytes-short : length sample_bytes < 1000
unfolding record_layout
sample_bytes-short = omega (
  arith,
  length-append {0},
  length-ldbytes (b'n' ∷ b's' ∷ []) (omega arith),
  length-ldbytes [] (omega arith),
  length-ldbytes (1 ∷ 2 ∷ 3 ∷ []) (omega arith),
  length-varu64_bytes 9 300 (omega arith),
  length-varu64_bytes 9 1700000000000 (omega arith),
)

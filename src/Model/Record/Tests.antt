-- ===== src/Model/Record/Tests.antt =====
-- The theorems on records at a concrete record.
use vicarl.Prelude.{ℕ, ◌≡◌, List, [], ◌∷◌}
use vicarl.Core.Types.{ok, view}
use vicarl.Core.Samples.{generous, generous-Grants}
use vicarl.Model.Samples.{sample_meta, sample_payload, sample_sig, sample-IsInput}
use vicarl.Model.Record.{record_encode, record_decode}
use vicarl.Model.Record.Layout.{decoded}
use vicarl.Model.Record.RoundTrip.{record_decode-encode}
use vicarl.Model.Record.Robust.{Decodes, record_decode-Decodes}

record_decode-encode_example :
    (bytes : List ℕ) × (record_encode generous sample_meta sample_payload sample_sig ≡ ok bytes)
    × (record_decode generous (view bytes)
        ≡ ok (decoded bytes sample_meta sample_payload sample_sig))
record_decode-encode_example = record_decode-encode sample-IsInput generous-Grants

-- Truncated behind the flags.
record_decode-Decodes_example :
    Decodes
      (b'V' ∷ b'C' ∷ b'R' ∷ b'1' ∷ 0 ∷ [])
      (record_decode generous (view (b'V' ∷ b'C' ∷ b'R' ∷ b'1' ∷ 0 ∷ [])))
record_decode-Decodes_example =
    record_decode-Decodes generous (view (b'V' ∷ b'C' ∷ b'R' ∷ b'1' ∷ 0 ∷ []))

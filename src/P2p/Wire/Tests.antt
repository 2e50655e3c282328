-- ===== src/P2p/Wire/Tests.antt =====
-- The theorems on messages at a concrete message and a concrete frame.
use vicarl.Prelude.{ℕ, ◌≡◌, refl, replicate, List, [], ◌∷◌, arith}
use vicarl.Core.Types.{ok, view}
use vicarl.Core.Samples.{generous, generous-Grants}
use vicarl.P2p.Wire.{Message, segment, wire_encode, wire_decode}
use vicarl.P2p.Wire.Layout.{IsMessage, received}
use vicarl.P2p.Wire.RoundTrip.{wire_decode-encode}
use vicarl.P2p.Wire.Robust.{Decodes, wire_decode-Decodes}

abbrev sample : Message
sample = segment 300 (replicate 32 7) (view (1 ∷ 2 ∷ 3 ∷ []))

sample-IsMessage : IsMessage sample
sample-IsMessage = (omega arith, refl, refl, omega arith)

wire_decode-encode_example :
    (bytes : List ℕ) × (wire_encode generous sample ≡ ok bytes)
    × (wire_decode (view bytes) ≡ ok (received sample))
wire_decode-encode_example = wire_decode-encode sample sample-IsMessage generous-Grants

-- A message of no known type.
wire_decode-Decodes_example :
    Decodes (wire_decode (view (b'V' ∷ b'C' ∷ b'P' ∷ b'1' ∷ 9 ∷ 0 ∷ 0 ∷ [])))
wire_decode-Decodes_example =
    wire_decode-Decodes (view (b'V' ∷ b'C' ∷ b'P' ∷ b'1' ∷ 9 ∷ 0 ∷ 0 ∷ []))

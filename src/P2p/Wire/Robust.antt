-- ===== src/P2p/Wire/Robust.antt =====
-- `vicarl_p2p_wire_decode` on any frame.
use vicarl.Prelude.{
  ℕ, ◌≤◌, ◌≡◌, refl, Bool, true, false, not, ◌||◌, length, ltb, ◌==◌, if◌then◌else◌, arith,
}
use vicarl.Core.Types.{
  Result, ok, err, format, Slice, slice_len, slice_bytes, is_null, ◌>>=◌, reject_if, IsU64,
}
use vicarl.Core.Reader.{Rbuf, rbuf_init, rbuf_remaining}
use vicarl.Core.Reader.Safe.{
  Taken, taken, short, Taken-bind, Any, rbuf_init-inside, get_u8-Taken, get_u16le-Taken,
  get_bytes-Taken, get_varu64-Taken, get_ldbytes-Taken,
}
use vicarl.Model.Framing.Laws.{or_format-Taken, get_magic-Taken}
use vicarl.P2p.Wire.{
  Message, hello, tip, get_segments, segment, error, other, read_head, read_hello, read_tip,
  read_get_segments, read_segment, read_error, read_payload, wire_decode,
}

-- What is received: one of the five types, hashes of 32 bytes, numbers of 64 bits, slices that are there.
abbrev pub IsReceived : Message → Type 0
IsReceived (hello proto_major proto_minor node_id) = length node_id ≡ 32
IsReceived (tip tip_no tip_hash) = IsU64 tip_no × (length tip_hash ≡ 32)
IsReceived (get_segments from_no max_count) = IsU64 from_no × IsU64 max_count
IsReceived (segment segment_no segment_hash segment_bytes) =
    IsU64 segment_no × (length segment_hash ≡ 32) × (is_null segment_bytes ≡ false)
IsReceived (error code message_utf8) = IsU64 code × (is_null message_utf8 ≡ false)
IsReceived (other n) = ⊥

either :
    {r : Rbuf} {m k : Result (Message × Rbuf)} (test : Bool)
    → Taken IsReceived r m
    → Taken IsReceived r k
    → Taken IsReceived r (if test then m else k)
either true h h' = h
either false h h' = h'

module _ (r : Rbuf) (i : r.pos ≤ length r.contents) where
  read_head-Taken : Taken Any r (read_head r)
  unfolding read_head
  read_head-Taken = Taken-bind _ (get_magic-Taken r i b'V' b'C' b'P' b'1') λ same r0 a i0.
      Taken-bind _ (or_format-Taken (get_u8-Taken r0 i0)) λ type' r1 b i1.
        Taken-bind _ (or_format-Taken (get_u8-Taken r1 i1)) λ flags r2 c i2.
          Taken-bind _ (get_varu64-Taken r2 i2)
            λ payload_len r3 d i3. taken tt refl (omega arith) i3

  read_hello-Taken : Taken IsReceived r (read_hello r)
  unfolding read_hello
  read_hello-Taken = Taken-bind _ (get_u16le-Taken r i) λ maj' r0 a i0.
      Taken-bind _ (get_u16le-Taken r0 i0) λ min' r1 b i1.
        Taken-bind _ (or_format-Taken (get_bytes-Taken r1 32 i1))
          λ nid r2 n i2. taken n refl (omega arith) i2

  read_tip-Taken : Taken IsReceived r (read_tip r)
  unfolding read_tip
  read_tip-Taken = Taken-bind _ (get_varu64-Taken r i) λ tip_no r0 a i0.
      Taken-bind _ (or_format-Taken (get_bytes-Taken r0 32 i0))
        λ hb r1 n i1. taken (a, n) refl (omega arith) i1

  read_get_segments-Taken : Taken IsReceived r (read_get_segments r)
  unfolding read_get_segments
  read_get_segments-Taken = Taken-bind _ (get_varu64-Taken r i) λ from_no r0 a i0.
      Taken-bind _ (get_varu64-Taken r0 i0) λ max_count r1 b i1. taken (a, b) refl (omega arith) i1

  read_segment-Taken : Taken IsReceived r (read_segment r)
  unfolding read_segment
  read_segment-Taken = Taken-bind _ (get_varu64-Taken r i) λ seg_no r0 a i0.
      Taken-bind _ (or_format-Taken (get_bytes-Taken r0 32 i0)) λ hb r1 n i1.
        Taken-bind _ (get_ldbytes-Taken r1 i1)
          λ seg_bytes r2 b i2. taken (a, n, refl) refl (omega arith) i2

  read_error-Taken : Taken IsReceived r (read_error r)
  unfolding read_error
  read_error-Taken = Taken-bind _ (get_varu64-Taken r i) λ code r0 a i0.
      Taken-bind _ (get_ldbytes-Taken r0 i0) λ msg r1 b i1. taken (a, refl) refl (omega arith) i1

  read_payload-Taken : (type' : ℕ) → Taken IsReceived r (read_payload type' r)
  unfolding read_payload
  read_payload-Taken type' = either (type' == 1) read_hello-Taken (
      either (type' == 2) read_tip-Taken (
        either (type' == 3) read_get_segments-Taken
          (either (type' == 4) read_segment-Taken (either (type' == 5) read_error-Taken short))))

-- The ways in which decoding ends.
pub data Decodes : Result Message → Type 0 where
  good : {msg : Message} → IsReceived msg → Decodes (ok msg)
  bad_format : Decodes (err format)

checked : (bad : Bool) {m : Result Message} → Decodes m → Decodes (reject_if bad format >>= λ _. m)
checked true h = bad_format
checked false h = h

Decodes-bind :
    {A : Type 0} {Q : A → Type 0} {r : Rbuf} {m : Result (A × Rbuf)} (k : A × Rbuf → Result Message)
    → Taken Q r m
    → ((a : A) (r' : Rbuf) → Q a → r'.pos ≤ length r'.contents → Decodes (k (a, r')))
    → Decodes (m >>= k)
Decodes-bind k (taken q e le i) next = next _ _ q i
Decodes-bind k short next = bad_format

-- On every frame decoding ends in a message of one of the five types, with hashes of 32 bytes, varints
-- below 2 ^ 64 and slices that are not NULL, or in VICARL_ERR_FORMAT; it never reads outside the frame.
pub wire_decode-Decodes : (frame : Slice) → Decodes (wire_decode frame)
unfolding wire_decode
wire_decode-Decodes frame = checked (ltb (slice_len frame) 6 || is_null frame) (
    Decodes-bind _
      (read_head-Taken (rbuf_init (slice_bytes frame)) (rbuf_init-inside (slice_bytes frame)))
      λ head r a i. checked (ltb (rbuf_remaining r) head.1) (
        Decodes-bind _ (get_bytes-Taken r head.1 i) λ payload r' b i'.
          checked (not (rbuf_remaining r' == 0)) (
            Decodes-bind _
              (read_payload-Taken (rbuf_init payload) (rbuf_init-inside payload) head.0)
              λ msg pr received j. checked (not (rbuf_remaining pr == 0)) (good received))))

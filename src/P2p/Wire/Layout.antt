-- ===== src/P2p/Wire/Layout.antt =====
-- The bytes of a message, written and read.
use vicarl.Prelude.{
  ℕ, ◌+◌, ◌/◌, ◌%◌, ◌<◌, ◌≤◌, ◌^◌, ◌≡◌, refl, sym, ap, ◌∙◌, List, [], ◌∷◌, ◌++◌, false, length,
  append-nil, arith,
}
use vicarl.Core.Types.{Result, ok, view, slice_bytes, slice_invalid, ◌>>=◌, or_format, IsU64}
use vicarl.Core.Alloc.{Allocator}
use vicarl.Core.Writer.{Wbuf, wbuf_init, wbuf_put_varu64, wbuf_put_bytes, varu64_bytes}
use vicarl.Core.Writer.Growth.{IsWbuf}
use vicarl.Core.Writer.Emit.{
  Emitted, written, denied, Emits, Emits-bind, ldbytes, put_u8-Emits, put_u16le-Emits,
  put_bytes-Emits, put_varu64-Emits, put_ldbytes-Emits, IsWbuf-init,
}
use vicarl.Core.Reader.{rbuf_get_bytes, rbuf_get_varu64, rbuf_get_ldbytes}
use vicarl.Core.Reader.Cursor.{at, Reads, reads, Reads-bind, get_u16le-at}
use vicarl.Core.Reader.Varint.{get_varu64-at, get_ldbytes-at}
use vicarl.Model.Framing.Laws.{
  or_oom-Emits, put_magic-Emits, get_magic-at, get_flag-at, get_fixed-at,
}
use vicarl.P2p.Wire.{
  Message, hello, tip, get_segments, segment, error, other, type_of, put_payload, put_framed,
  write_frame, read_head, read_hello, read_tip, read_get_segments, read_segment, read_error,
  read_payload,
}

abbrev pub u16le_bytes : ℕ → List ℕ
u16le_bytes v = v % 256 ∷ v / 256 ∷ []

abbrev pub payload_layout : Message → List ℕ
payload_layout (hello proto_major proto_minor node_id) =
    u16le_bytes proto_major ++ (u16le_bytes proto_minor ++ node_id)
payload_layout (tip tip_no tip_hash) = varu64_bytes tip_no ++ tip_hash
payload_layout (get_segments from_no max_count) = varu64_bytes from_no ++ varu64_bytes max_count
payload_layout (segment segment_no segment_hash segment_bytes) =
    varu64_bytes segment_no ++ (segment_hash ++ ldbytes (slice_bytes segment_bytes))
payload_layout (error code message_utf8) = varu64_bytes code ++ ldbytes (slice_bytes message_utf8)
payload_layout (other n) = []

-- Magic, type, flags, and the payload behind its length.
unfoldable pub frame_layout : Message → List ℕ
frame_layout msg = b'V' ∷ b'C' ∷ b'P' ∷ b'1' ∷ type_of msg ∷ 0 ∷ ldbytes (payload_layout msg)

-- What the types of the source say of a message, and that it fits in memory.
abbrev pub IsMessage : Message → Type 0
IsMessage (hello proto_major proto_minor node_id) =
    (proto_major < 2 ^ 16) × (proto_minor < 2 ^ 16) × (length node_id ≡ 32)
IsMessage (tip tip_no tip_hash) = IsU64 tip_no × (length tip_hash ≡ 32)
IsMessage (get_segments from_no max_count) = IsU64 from_no × IsU64 max_count
IsMessage (segment segment_no segment_hash segment_bytes) =
    IsU64 segment_no
    × (length segment_hash ≡ 32)
    × (slice_invalid segment_bytes ≡ false)
    × (length (slice_bytes segment_bytes) < 2 ^ 60)
IsMessage (error code message_utf8) =
    IsU64 code × (slice_invalid message_utf8 ≡ false) × (length (slice_bytes message_utf8) < 2 ^ 60)
IsMessage (other n) = ⊥

-- What a receiver gets: NULL for no bytes is forgotten.
abbrev pub received : Message → Message
received (segment segment_no segment_hash segment_bytes) =
    segment segment_no segment_hash (view (slice_bytes segment_bytes))
received (error code message_utf8) = error code (view (slice_bytes message_utf8))
received msg = msg

module _ {grants : Allocator} where
  put_payload-Emits :
      (msg : Message) → IsMessage msg → Emits grants (put_payload grants msg) (payload_layout msg)
  unfolding put_payload
  put_payload-Emits (hello proto_major proto_minor node_id) (hj, hn, hi) =
      Emits-bind (put_u16le-Emits proto_major hj)
        (Emits-bind (put_u16le-Emits proto_minor hn) (put_bytes-Emits (view node_id) refl))
  put_payload-Emits (tip tip_no tip_hash) (ht, hh) =
      Emits-bind (put_varu64-Emits tip_no ht) (put_bytes-Emits (view tip_hash) refl)
  put_payload-Emits (get_segments from_no max_count) (hf, hm) =
      Emits-bind (put_varu64-Emits from_no hf) (put_varu64-Emits max_count hm)
  put_payload-Emits (segment segment_no segment_hash segment_bytes) (hs, hh, valid, fits) =
      Emits-bind (put_varu64-Emits segment_no hs) (
        Emits-bind (put_bytes-Emits (view segment_hash) refl)
          (put_ldbytes-Emits segment_bytes valid (omega arith)))
  put_payload-Emits (error code message_utf8) (hc, valid, fits) =
      Emits-bind (put_varu64-Emits code hc) (put_ldbytes-Emits message_utf8 valid (omega arith))
  put_payload-Emits (other n) h = absurd h

  -- A payload that is written to its own buffer, then behind its length to the frame.
  framed :
      {w : Wbuf} {bs : List ℕ} {r : Result Wbuf}
      → Emitted grants wbuf_init bs r
      → length bs < 2 ^ 61
      → IsWbuf w
      → length w.bytes + length (ldbytes bs) + 10 ≤ 2 ^ 62
      → Emitted grants w (ldbytes bs) (
          r >>= λ p. wbuf_put_varu64 grants w (length p.bytes) >>= λ w'.
          wbuf_put_bytes grants w' (view p.bytes))
  framed {w} {bs} (written i e) fits h room = rw e (
      (Emits-bind (put_varu64-Emits (length bs) (omega arith)) (put_bytes-Emits (view bs) refl)).at
        w h room)
  framed (denied d no') fits h room = denied d no'

  put_framed-Emits :
      (msg : Message)
      → IsMessage msg
      → length (payload_layout msg) < 2 ^ 61
      → Emits grants (put_framed grants msg) (ldbytes (payload_layout msg))
  unfolding put_framed
  put_framed-Emits msg h fits = record {
    at = λ w i room.
        framed ((put_payload-Emits msg h).at wbuf_init IsWbuf-init (omega arith)) fits i room;
  }

  pub write_frame-Emits :
      (msg : Message)
      → IsMessage msg
      → type_of msg < 256
      → length (payload_layout msg) < 2 ^ 61
      → Emits grants (write_frame grants msg) (frame_layout msg)
  unfolding write_frame frame_layout
  write_frame-Emits msg h byte fits =
      let same : type_of msg % 256 ≡ type_of msg = omega arith in
      rw (same, write_frame)
        (Emits-bind (or_oom-Emits (put_magic-Emits b'V' b'C' b'P' b'1')) (
          Emits-bind (put_u8-Emits (type_of msg))
            (Emits-bind (put_u8-Emits 0) (put_framed-Emits msg h fits))))

pub read_head-layout :
    (msg : Message)
    → length (payload_layout msg) < 2 ^ 61
    → Reads
        (type_of msg, length (payload_layout msg))
        (payload_layout msg)
        (read_head (at [] (frame_layout msg)))
unfolding read_head frame_layout
read_head-layout msg fits = Reads-bind _ (get_magic-at [] b'V' b'C' b'P' b'1' _) (
    Reads-bind _ (get_flag-at _ (type_of msg) _) (
      Reads-bind _ (get_flag-at _ 0 _) (
        Reads-bind _ (get_varu64-at _ _ (length (payload_layout msg)) (omega arith))
          (reads _ refl))))

-- The last field of a payload.
fixed_last :
    (pre xs : List ℕ)
    → length xs ≡ 32
    → or_format (rbuf_get_bytes (at pre xs) 32) ≡ ok (xs, at (pre ++ xs) [])
fixed_last pre xs e =
    ap (λ t. or_format (rbuf_get_bytes (at pre t) 32)) (sym (append-nil xs))
    ∙ get_fixed-at pre xs [] 32 e

varu64_last :
    (pre : List ℕ) (v : ℕ)
    → IsU64 v
    → rbuf_get_varu64 (at pre (varu64_bytes v)) ≡ ok (v, at (pre ++ varu64_bytes v) [])
varu64_last pre v h =
    ap (λ t. rbuf_get_varu64 (at pre t)) (sym (append-nil (varu64_bytes v)))
    ∙ get_varu64-at pre [] v h

ldbytes_last :
    (pre bs : List ℕ)
    → IsU64 (length bs)
    → rbuf_get_ldbytes (at pre (ldbytes bs)) ≡ ok (bs, at (pre ++ ldbytes bs) [])
ldbytes_last pre bs h =
    ap (λ t. rbuf_get_ldbytes (at pre t)) (sym (append-nil (ldbytes bs)))
    ∙ get_ldbytes-at pre bs [] h

pub read_payload-layout :
    (msg : Message)
    → IsMessage msg
    → Reads (received msg) [] (read_payload (type_of msg) (at [] (payload_layout msg)))
unfolding read_payload read_hello read_tip read_get_segments read_segment read_error
read_payload-layout (hello proto_major proto_minor node_id) (hj, hn, hi) =
    Reads-bind _ (get_u16le-at [] proto_major _ hj) (
      Reads-bind _ (get_u16le-at _ proto_minor _ hn)
        (Reads-bind _ (fixed_last _ node_id hi) (reads _ refl)))
read_payload-layout (tip tip_no tip_hash) (ht, hh) =
    Reads-bind _ (get_varu64-at _ _ tip_no ht)
      (Reads-bind _ (fixed_last _ tip_hash hh) (reads _ refl))
read_payload-layout (get_segments from_no max_count) (hf, hm) =
    Reads-bind _ (get_varu64-at _ _ from_no hf)
      (Reads-bind _ (varu64_last _ max_count hm) (reads _ refl))
read_payload-layout (segment segment_no segment_hash segment_bytes) (hs, hh, valid, fits) =
    Reads-bind _ (get_varu64-at _ _ segment_no hs) (
      Reads-bind _ (get_fixed-at _ segment_hash _ 32 hh)
        (Reads-bind _ (ldbytes_last _ (slice_bytes segment_bytes) (omega arith)) (reads _ refl)))
read_payload-layout (error code message_utf8) (hc, valid, fits) =
    Reads-bind _ (get_varu64-at _ _ code hc)
      (Reads-bind _ (ldbytes_last _ (slice_bytes message_utf8) (omega arith)) (reads _ refl))
read_payload-layout (other n) h = absurd h

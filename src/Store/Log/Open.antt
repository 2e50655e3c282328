-- ===== src/Store/Log/Open.antt =====
-- src/store/store_log.c: vicarl_store_open_log on the files of a log.
use vicarl.Prelude.{
  ℕ, suc, ◌+◌, ◌≤◌, ◌<◌, ◌^◌, ◌≡◌, refl, sym, ap, ◌∙◌, List, [], ◌∷◌, true, false, Option, none,
  some, length, ltb, ◌==◌, Bool-cases, bytes_eq, bytes_eq→eq, if◌then◌else◌, inl, inr, arith,
}
use vicarl.Core.Types.{ok, view, ok-bind}
use vicarl.Core.Alloc.{Allocator, Grants, malloc_grants-true, calloc_grants-true}
use vicarl.Core.Sha256.Digest.{sha256-eq}
use vicarl.Store.Names.{seg_filename, seg_tmp_filename, is_seg_name}
use vicarl.Store.Names.RoundTrip.{
  is_seg_name-seg_filename, is_seg_name-seg_tmp_filename, seg_filename-ne-seg_tmp_filename,
}
use vicarl.Store.Disk.{Files, lookup, put, lookup-put_ne, put-AllNames, AllNames}
use vicarl.Store.Log.{
  LogStore, Opendir, OpenCalls, greatest, scan_tip, open_tip, store_open_log, log_store_size,
  store_size,
}
use vicarl.Store.Interface.{tip_of, tip_at, last, last-some, get_elem?-last}
use vicarl.Store.Log.Abstract.{IsLog, Below, AtMost, AreFiles-get, AreFiles-keep}
use vicarl.Store.Log.Read.{Works, log_read_segment-file}

-- One name: the greater of the two numbers.
abbrev greater : ℕ → Option ℕ → ℕ
greater t none = t
greater t (some seg_no) = if ltb t seg_no then seg_no else t

greatest-cons :
    (name bytes : List ℕ) (files : Files) (t : ℕ)
    → greatest ((name, bytes) ∷ files) t ≡ greatest files (greater t (is_seg_name name))
unfolding greatest
greatest-cons name bytes files t = ap (greatest files) (same (is_seg_name name))
  where
    same :
        (o : Option ℕ)
        → ◌≡◌ {A = ℕ}
            (elim o [ none ↦ t | some seg_no ↦ if ltb t seg_no then seg_no else t ])
            (greater t o)
    same none = refl
    same (some seg_no) = refl

greater-le : (n t : ℕ) (o : Option ℕ) → t ≤ n → AtMost n o → greater t o ≤ n
greater-le n t none h q = h
greater-le n t (some k) h q = ground arith

le-greater : (t : ℕ) (o : Option ℕ) → t ≤ greater t o
le-greater t none = omega arith
le-greater t (some k) = ground arith

some-greater : (t k : ℕ) → k ≤ greater t (some k)
some-greater t k = ground arith

greatest-le :
    (n : ℕ) (files : Files) (t : ℕ) → t ≤ n → AllNames (Below n) files → greatest files t ≤ n
greatest-le n [] t h q = unfold greatest in h
greatest-le n ((name, bytes) ∷ files) t h (q, qs) =
    rw (greatest-cons name bytes files t) (
      greatest-le n files (greater t (is_seg_name name)) (greater-le n t (is_seg_name name) h q) qs)

le-greatest : (files : Files) (t : ℕ) → t ≤ greatest files t
le-greatest [] t = unfold greatest in omega arith
le-greatest ((name, bytes) ∷ files) t = rw (greatest-cons name bytes files t) (
    omega
      (arith, le-greater t (is_seg_name name), le-greatest files (greater t (is_seg_name name))))

-- A file that is there is counted.
found-le :
    (files : Files) (t k : ℕ) (name b : List ℕ)
    → lookup name files ≡ some b
    → is_seg_name name ≡ some k
    → k ≤ greatest files t
unfolding lookup
found-le [] t k name b e f = absurd (cc)
found-le ((name', bytes) ∷ files) t k name b e f = elim (Bool-cases (bytes_eq name name')) [
  | inl same ↦
      let e' : is_seg_name name' ≡ some k =
        ap is_seg_name (sym (bytes_eq→eq name name' same)) ∙ f in
      rw (greatest-cons name' bytes files t, e')
        (omega (arith, some-greater t k, le-greatest files (greater t (some k))))
  | inr other ↦
      rw (greatest-cons name' bytes files t)
        (found-le files (greater t (is_seg_name name')) k name b (rw other at e) f)
]

greatest-IsLog :
    (segments : List (List ℕ)) (files : Files) (ls : LogStore)
    → IsLog segments files ls
    → greatest files 0 ≡ length segments
greatest-IsLog [] files ls log = omega (arith, greatest-le 0 files 0 (omega arith) log.only)
greatest-IsLog (x ∷ rest) files ls log =
    let (b, e) = last-some x rest in
    let found =
      AreFiles-get 1 (x ∷ rest) files (length rest) b log.present (get_elem?-last x rest b e) in
    omega (
      arith,
      greatest-le (length (x ∷ rest)) files 0 (omega arith) log.only,
      found-le files 0 (1 + length rest) (seg_filename (1 + length rest)) b found
          (is_seg_name-seg_filename (1 + length rest) (omega (arith, log.few))),
    )

-- The last segment can be read.
abbrev CanRead : OpenCalls → Option (List ℕ) → Type 0
CanRead calls none = Unit
CanRead calls (some b) = Works calls.reading (length b) × (length b ≤ 2 ^ 63)

-- The calls of an opening succeed.
pub record Opens (calls : OpenCalls) (dir : List ℕ) (segments : List (List ℕ)) : Type 0 where
  pub named : 0 < length dir
  pub short : length dir ≤ 2 ^ 62
  pub made : calls.mkdir_ok ≡ true
  pub listed : calls.opendir ≡ Opendir.opened
  pub reading : CanRead calls (last segments)

module _ {grants : Allocator} (g : Grants grants) (calls : OpenCalls) (dir : List ℕ) where
  open_tip-tip_of :
      (segments : List (List ℕ)) (files : Files) (ls : LogStore)
      → Opens calls dir segments
      → IsLog segments files ls
      → open_tip grants calls.reading files dir (length segments) ≡ ok (tip_of segments)
  unfolding open_tip
  open_tip-tip_of [] files ls o log = refl
  open_tip-tip_of (x ∷ rest) files ls o log =
      let (b, e) = last-some x rest in
      let (w, small) : CanRead calls (some b) = rw e at o.reading in
      let found =
        AreFiles-get 1 (x ∷ rest) files (length rest) b log.present (get_elem?-last x rest b e) in
      let at' : 1 + length rest ≡ suc (length rest) = omega arith in
      let read =
        log_read_segment-file calls.reading g files (record { dir = dir; tip = none })
          (suc (length rest)) b o.short w small
          (ap (λ n. lookup (seg_filename n) files) (sym at') ∙ found) in
      let pos : (suc (length rest) == 0) ≡ false = ground arith in
      rw pos (
        ok-bind _ read (
          ok-bind _ (sha256-eq (view b) refl)
            (ap (λ t. ok (tip_at (length (x ∷ rest)) t)) (sym e))))

  -- With an allocator that grants sizes up to 2 ^ 63, and if the calls of the opening succeed, opening
  -- the directory of a log gives a store with the same segments and their tip.
  pub store_open_log-IsLog :
      (segments : List (List ℕ)) (files : Files) (ls : LogStore)
      → Opens calls dir segments
      → IsLog segments files ls
      → (ls' : LogStore) × (store_open_log grants calls files dir ≡ ok ls')
        × IsLog segments files ls'
  unfolding store_open_log scan_tip
  store_open_log-IsLog segments files ls o log =
      let named : (length dir == 0) ≡ false = ground (arith, o.named) in
      let room1 = calloc_grants-true g 1 log_store_size refl (omega arith) in
      let room2 = malloc_grants-true g (length dir + 1) (omega (arith, o.short)) in
      let room3 = calloc_grants-true g 1 store_size refl (omega arith) in
      (
        record { dir = dir; tip = tip_of segments },
        rw (named, o.made, room1, room2, o.listed, greatest-IsLog segments files ls log)
            (rw (open_tip-tip_of segments files ls o log, room3) refl),
        record { few = log.few; present = log.present; only = log.only; tip_ok = refl },
      )

  -- A temporary file that was left behind.
  interrupted :
      (segments : List (List ℕ)) (files : Files) (ls : LogStore) (k : ℕ) (b : List ℕ)
      → IsLog segments files ls
      → IsLog segments (put (seg_tmp_filename k) b files) ls
  interrupted segments files ls k b log = record {
    few = log.few;
    present =
        AreFiles-keep 1 segments files (put (seg_tmp_filename k) b files)
          (λ n lo hi.
            lookup-put_ne (seg_filename n) (seg_tmp_filename k) b files
              (seg_filename-ne-seg_tmp_filename n k (omega (arith, log.few))))
          log.present;
    only =
        put-AllNames (Below (length segments)) (seg_tmp_filename k) b files
          (rw (is_seg_name-seg_tmp_filename k) tt) log.only;
    tip_ok = log.tip_ok;
  }

  -- With an allocator that grants sizes up to 2 ^ 63, and if the calls of the opening succeed, a log in
  -- whose directory a temporary file with any number and bytes was left is opened, and the store then
  -- holds the same segments.
  pub store_open_log-interrupted :
      (segments : List (List ℕ)) (files : Files) (ls : LogStore) (k : ℕ) (b : List ℕ)
      → Opens calls dir segments
      → IsLog segments files ls
      → (ls' : LogStore) × (store_open_log grants calls (put (seg_tmp_filename k) b files) dir
          ≡ ok ls')
        × IsLog segments (put (seg_tmp_filename k) b files) ls'
  store_open_log-interrupted segments files ls k b o log =
      store_open_log-IsLog segments (put (seg_tmp_filename k) b files) ls o
        (interrupted segments files ls k b log)

-- ===== src/Store/Log/Publish.antt =====
-- src/store/store_log.c: the calls on the temporary file and on the final one.
use vicarl.Prelude.{
  ℕ, ◌≤◌, ◌≡◌, ◌≢◌, refl, ap, ◌∙◌, List, Bool, true, not, ◌&&◌, ◌⊎◌, inl, inr, some, length, take,
  take-all, ltb, if◌then◌else◌, Bool-cases,
}
use vicarl.Core.Types.{Error, Result, ok, err, io}
use vicarl.Store.Disk.{
  Files, lookup, put, erase, rename, rename-put, lookup-put, lookup-put_ne, lookup-erase_ne,
  AllNames, put-AllNames, erase-AllNames,
}
use vicarl.Store.Log.{WriteCalls, discard, synced, publish}

-- All bytes reach the file: they are flushed before `fclose`, or `fclose` flushes them.
abbrev pub IsDurable : WriteCalls → Bool → List ℕ → Type 0
IsDurable calls fsync_on_commit bytes = (fsync_on_commit ≡ true) ⊎ (length bytes ≤ calls.kept)

abbrev pub written : WriteCalls → Bool → List ℕ → List ℕ
written calls fsync_on_commit bytes = if fsync_on_commit then bytes else take calls.kept bytes

module _ (calls : WriteCalls) (fsync_on_commit : Bool) (tmp final bytes : List ℕ)
    (files : Files) where
  -- The ways in which the calls end.
  pub data Published : Files × Result (Unit {0}) → Type 0 where
    refused : Published (files, err io)
    dropped : (b : List ℕ) → Published (erase tmp (put tmp b files), err io)
    left : (b : List ℕ) → Published (put tmp b files, err io)
    renamed : Published (
      put final
          (written calls fsync_on_commit bytes)
          (erase tmp (put tmp (written calls fsync_on_commit bytes) files)),
      ok tt,
    )

  given_up : (b : List ℕ) → Published (discard calls tmp (put tmp b files), err io)
  unfolding discard
  given_up b = elim (Bool-cases calls.remove_ok) [
    | inl removed ↦ simp removed (dropped b)
    | inr stays ↦ simp stays (left b)
  ]

  moved :
      rename tmp final (put tmp (written calls fsync_on_commit bytes) files)
      ≡ put final
          (written calls fsync_on_commit bytes)
          (erase tmp (put tmp (written calls fsync_on_commit bytes) files))
  moved =
      let b = written calls fsync_on_commit bytes in
      rename-put tmp final b (put tmp b files) (lookup-put tmp b files)

  pub publish-Published : Published (publish calls fsync_on_commit tmp final bytes files)
  unfolding publish
  publish-Published = elim (Bool-cases calls.fopen_ok) [
    | inr closed ↦ simp closed refused
    | inl open' ↦ elim (Bool-cases (ltb calls.written (length bytes))) [
      | inl cut ↦ simp (open', cut) (given_up (take calls.written bytes))
      | inr all ↦ elim (Bool-cases (fsync_on_commit && not (synced calls))) [
        | inl unsynced ↦ simp (open', all, unsynced) (given_up (take calls.written bytes))
        | inr good ↦ elim (Bool-cases calls.rename_ok) [
          | inl named ↦ simp (open', all, good, named, moved) renamed
          | inr unnamed ↦
              simp (open', all, good, unnamed) (given_up (written calls fsync_on_commit bytes))
        ]
      ]
    ]
  ]

  -- Every other file stays as it is.
  pub Published-lookup :
      {r : Files × Result (Unit {0})} (name : List ℕ)
      → Published r
      → name ≢ tmp
      → name ≢ final
      → lookup name r.0 ≡ lookup name files
  Published-lookup name refused ht hf = refl
  Published-lookup name (dropped b) ht hf =
      lookup-erase_ne name tmp (put tmp b files) ht ∙ lookup-put_ne name tmp b files ht
  Published-lookup name (left b) ht hf = lookup-put_ne name tmp b files ht
  Published-lookup name renamed ht hf =
      let b = written calls fsync_on_commit bytes in
      lookup-put_ne name final b (erase tmp (put tmp b files)) hf
      ∙ lookup-erase_ne name tmp (put tmp b files) ht
      ∙ lookup-put_ne name tmp b files ht

  -- A failure leaves the final file as it is too.
  pub Published-lookup_err :
      {r : Files × Result (Unit {0})} {e : Error} (name : List ℕ)
      → Published r
      → r.1 ≡ err e
      → name ≢ tmp
      → lookup name r.0 ≡ lookup name files
  Published-lookup_err name refused h ht = refl
  Published-lookup_err name (dropped b) h ht =
      lookup-erase_ne name tmp (put tmp b files) ht ∙ lookup-put_ne name tmp b files ht
  Published-lookup_err name (left b) h ht = lookup-put_ne name tmp b files ht
  Published-lookup_err name renamed h ht = absurd (cc)

  written_all : IsDurable calls fsync_on_commit bytes → written calls fsync_on_commit bytes ≡ bytes
  written_all (inl flushed) = rw flushed refl
  written_all (inr kept) = elim (Bool-cases fsync_on_commit) [
    | inl flushed ↦ rw flushed refl
    | inr unflushed ↦ rw unflushed (take-all calls.kept bytes kept)
  ]

  -- A success leaves the bytes in the final file, if they reach it.
  pub Published-stored :
      {r : Files × Result (Unit {0})}
      → Published r
      → r.1 ≡ ok tt
      → IsDurable calls fsync_on_commit bytes
      → lookup final r.0 ≡ some bytes
  Published-stored refused h d = absurd (cc)
  Published-stored (dropped b) h d = absurd (cc)
  Published-stored (left b) h d = absurd (cc)
  Published-stored renamed h d =
      let b = written calls fsync_on_commit bytes in
      lookup-put final b (erase tmp (put tmp b files)) ∙ ap some (written_all d)

  module _ (P : List ℕ → Type 0) (p : P tmp) (h : AllNames P files) where
    pub Published-names : {r : Files × Result (Unit {0})} → Published r → P final → AllNames P r.0
    Published-names refused q = h
    Published-names (dropped b) q =
        erase-AllNames P tmp (put tmp b files) (put-AllNames P tmp b files p h)
    Published-names (left b) q = put-AllNames P tmp b files p h
    Published-names renamed q =
        let b = written calls fsync_on_commit bytes in
        put-AllNames P final b (erase tmp (put tmp b files)) q
          (erase-AllNames P tmp (put tmp b files) (put-AllNames P tmp b files p h))

    pub Published-names_err :
        {r : Files × Result (Unit {0})} {e : Error} → Published r → r.1 ≡ err e → AllNames P r.0
    Published-names_err refused f = h
    Published-names_err (dropped b) f =
        erase-AllNames P tmp (put tmp b files) (put-AllNames P tmp b files p h)
    Published-names_err (left b) f = put-AllNames P tmp b files p h
    Published-names_err renamed f = absurd (cc)

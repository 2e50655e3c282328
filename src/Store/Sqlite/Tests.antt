-- ===== src/Store/Sqlite/Tests.antt =====
-- src/store/store_sqlite.c: the store in SQLite at tables in memory.
use vicarl.Prelude.{
  ◌-◌, ◌<◌, ◌^◌, ◌≡◌, refl, List, [], ◌∷◌, ◌++◌, true, Option, some, replicate, arith,
}
use vicarl.Core.Types.{ok, err, view}
use vicarl.Core.Sha256.{sha256_digest}
use vicarl.Core.Samples.{generous, generous-Grants}
use vicarl.Store.Interface.{StoreLaws, Appended}
use vicarl.Store.Driver.{len}
use vicarl.Store.Sql.{StoreOptions}
use vicarl.Store.Sqlite.{store_open_sqlite, sqlite_append_segment}
use vicarl.Store.Sqlite.Holds.{IsStored}
use vicarl.Store.Sqlite.Append.{sqlite_append_segment-Appended}
use vicarl.Prelude.{ℕ, ap, ◌↔◌, length, get_elem?}
use vicarl.Core.Types.{Error}
use vicarl.Core.Sha256.Digest.{sha256_digest-Is32}
use vicarl.Model.Merkle.{zero_hash}
use vicarl.Model.Samples.{sample_bytes}
use vicarl.Model.Segment.Samples.{seg, seg-small, read_back, seg-decodes}
use vicarl.Model.Segment.Sizes.{records_in}
use vicarl.Model.Segment.Sizes.{contents}
use vicarl.Store.Sqlite.Memory.{Memory, memory}
use vicarl.Store.Sqlite.{SqliteStore}
use vicarl.Store.Sqlite.{sqlite_get_record}
use vicarl.Store.Sqlite.Get.{found_or_not, lookup_record, sqlite_get_record-lookup}
use vicarl.Store.Sqlite.Link.{sqlite_append_segment_iff}
use vicarl.Store.Sqlite.Duplicate.{sqlite_append_segment-known}
use vicarl.Store.Sqlite.Laws.{sqlite_ops, HoldsSmall, sqlite_ops-StoreLaws}
use vicarl.Store.Sqlite.Open.{WantsIndex, store_open_sqlite-IsStored}
use vicarl.Store.Sqlite.Query.{Filter, base_sql, where_sql, query_sql}
use vicarl.Store.Sqlite.Query.Text.{
  chosen, conditions_of, where_clause, len-query_sql, where_sql-joined,
}
use vicarl.Store.Driver.{◌<>◌}
use vicarl.Store.Sqlite.Memory.Lawful.{memory-Assumed, memory-Answers, memory-Binds}
use vicarl.Store.Sqlite.Samples.{
  empty_store, empty_store-IsStored, plain_store, plain_store-IsStored, one_store,
  one_store-IsStored, memory-Works, memory-PrimaryKey, memory-Runs, open_one,
}

records_in-seg :
    (n : ℕ) (prev : List ℕ)
    → n < 100
    → length prev ≡ 32
    → records_in generous (seg n prev) ≡ view sample_bytes ∷ []
records_in-seg n prev small len = rw (seg-decodes generous-Grants n prev small len, records_in) refl

abbrev first_seg : List ℕ
first_seg = seg 1 zero_hash

abbrev second_seg : List ℕ
second_seg = seg 2 (sha256_digest first_seg)

sqlite_append_segment-Appended_example :
    Appended
      (IsStored memory-Assumed generous)
      []
      first_seg
      (sqlite_append_segment memory generous (view first_seg) empty_store)
sqlite_append_segment-Appended_example =
    sqlite_append_segment-Appended memory-Assumed generous (empty_store-IsStored generous)
      memory-Binds (view first_seg) (omega arith) (seg-small 1 zero_hash (omega arith) refl)

sqlite_append_segment_iff_example :
    ((sqlite_append_segment memory generous (view first_seg) plain_store).1
      ≡ ok (1, sha256_digest first_seg))
    ↔ (((read_back 1 zero_hash).hdr.segment_no ≡ 1)
        × ((read_back 1 zero_hash).hdr.prev_segment_hash ≡ zero_hash))
sqlite_append_segment_iff_example =
    sqlite_append_segment_iff memory-Assumed generous memory-Works memory-Binds
      (plain_store-IsStored generous) (view first_seg) (omega arith) (read_back 1 zero_hash)
      (seg-decodes generous-Grants 1 zero_hash (omega arith) refl) refl
      (seg-small 1 zero_hash (omega arith) refl)

old_record : get_elem? (contents generous (first_seg ∷ [])) 0 ≡ some (view sample_bytes)
old_record = ap (λ l. get_elem? (l ++ []) 0) (records_in-seg 1 zero_hash (omega arith) refl)

new_record : get_elem? (records_in generous second_seg) 0 ≡ some (view sample_bytes)
new_record =
    ap (λ l. get_elem? l 0)
      (records_in-seg 2 (sha256_digest first_seg) (omega arith) (sha256_digest-Is32 first_seg).0)

sqlite_append_segment-known_example :
    (e : Error) × ((sqlite_append_segment memory generous (view second_seg) (one_store first_seg)).1
      ≡ err e)
sqlite_append_segment-known_example =
    sqlite_append_segment-known memory-Assumed memory-Binds memory-PrimaryKey generous
      (one_store-IsStored first_seg) (view second_seg) 0 0 (view sample_bytes) refl (omega arith)
      (seg-small 2 (sha256_digest first_seg) (omega arith) (sha256_digest-Is32 first_seg).0)
      old_record new_record

sqlite_ops-StoreLaws_example :
    StoreLaws (sqlite_ops memory generous) (2 ^ 31 - 1) (HoldsSmall memory-Assumed generous)
sqlite_ops-StoreLaws_example =
    sqlite_ops-StoreLaws memory-Assumed generous-Grants memory-Answers memory-Binds

abbrev with_index : Option StoreOptions
with_index = some (record {
  fsync_on_commit = 1;
  enable_record_index = 1;
  sqlite_wal = 1;
  sqlite_synchronous = 2;
})

store_open_sqlite-IsStored_example :
    (ss : SqliteStore Memory) × ((store_open_sqlite memory generous
          (open_one first_seg)
          (b'm' ∷ [])
          with_index
        ≡ ok ss)
      × (IsStored memory-Assumed generous (first_seg ∷ []) ss
          × ((ss.record_index_enabled ≡ true) ↔ WantsIndex with_index)))
store_open_sqlite-IsStored_example =
    store_open_sqlite-IsStored memory-Assumed generous-Grants (open_one first_seg) (b'm' ∷ [])
      with_index (first_seg ∷ []) (one_store first_seg).db memory-Runs (omega arith) refl
      (one_store-IsStored first_seg).idle (one_store-IsStored first_seg).rows
      (λ h. (one_store-IsStored first_seg).indexed refl) (omega arith)

abbrev a_filter : Filter
a_filter = record {
  namespace_utf8 = view (b'n' ∷ []);
  schema_utf8 = view [];
  author = replicate 32 0;
  time_from_ms = 5;
  time_to_ms = 0;
  limit = 0;
}

len-query_sql_example : len (query_sql (some a_filter)) < 512
len-query_sql_example = len-query_sql (some a_filter)

where_sql-joined_example :
    where_sql a_filter ≡ base_sql <> where_clause (chosen (conditions_of a_filter))
where_sql-joined_example = where_sql-joined a_filter

sqlite_get_record-lookup_example :
    sqlite_get_record memory generous (one_store first_seg) (sha256_digest sample_bytes)
    ≡ found_or_not (lookup_record (sha256_digest sample_bytes) (contents generous (first_seg ∷ [])))
sqlite_get_record-lookup_example =
    sqlite_get_record-lookup memory-Assumed generous-Grants memory-Answers memory-Binds
      (record {
        stored = one_store-IsStored first_seg;
        sizes = (seg-small 1 zero_hash (omega arith) refl, tt);
      })
      refl (sha256_digest sample_bytes) (sha256_digest-Is32 sample_bytes).0

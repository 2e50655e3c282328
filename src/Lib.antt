-- ===== src/Lib.antt =====
-- Vicarl, a library for tamper-evident ledgers: its codec, its hash, its data model, and the messages of
-- its nodes.
--
-- Records carry a payload with metadata and an optional signature. Segments hold encoded records behind a
-- header that has the hash of the segment before and the Merkle root of the records. Nodes exchange
-- segments in messages. All these formats are written and read with one codec, hashes are SHA-256, and
-- memory comes from one allocator. A ledger collects records in a buffer and flushes them as segments to a
-- store; a node hands segments of its store to peers and appends theirs. Both use a store through one
-- interface; the log store, with a file for each segment, and the SQLite store, with a row for each, are behind it.
--
-- Prelude: names shared by all, tests on numbers, lists, and bit masks as arithmetic.
-- Core/Types: include/vicarl/error.h and include/vicarl/types.h. A call returns `Result`: `ok` for
--   VICARL_OK with what the out-parameters receive, `err` for the other statuses. The value `fault` is no
--   status of the program: it stands for an access outside a buffer, and for a loop out of fuel.
-- Core/Alloc: src/core/alloc.c. The allocator is a parameter that tells by the size whether a request is
--   granted; `Grants` is an allocator that grants all sizes up to 2 ^ 63.
-- Core/Writer: src/core/codec.c, vicarl_wbuf_*. A buffer is its bytes and its capacity. The loop that
--   doubles the capacity has 64 units of fuel, enough for 256 to pass SIZE_MAX.
--   Growth has the reservation, Leb the bytes of varints, Emit what every operation appends.
-- Core/Reader: src/core/codec.c, vicarl_rbuf_*. A reader is the bytes and a position. Cursor and Varint
--   read back what was written; Safe is about any bytes, Sizes about the sizes of what is read.
-- Core/Sha256: src/core/hash.c, with a published digest as a test. The loop over blocks has the number of
--   bytes as fuel. Digest has the size of digests, Blocks the padding.
-- Model/Framing: the magic and the signature that the formats of src/model/record.c, src/model/segment.c
--   and, for the magic, src/p2p/wire.c share.
-- Model/Record: src/model/record.c, vicarl_record_encode, _decode, _id, _signature, _verify. Layout has the
--   format, RoundTrip and Robust the theorems.
-- Model/Segment: src/model/segment.c, vicarl_segment_encode, _decode, _get_record, _hash, _verify, laid out
--   in the same way, Verify on what is accepted, Sizes on the sizes of the records, and Front on what stands in
--   front of a segment that is decoded.
-- Model/Merkle: src/model/merkle.c. The loops over levels have the number of leaves as fuel; a level has
--   fewer hashes than the one below. Shape and Loops follow one path through the levels, Proofs, Binding
--   and Malleable say what roots and proofs mean.
-- P2p/Wire: src/p2p/wire.c, vicarl_p2p_wire_encode and _decode. A message is its type with its part of the
--   union; a type that is none of the five is `other`. Laid out as Model/Record is.
-- Store/Interface: src/store/store_common.h. The operations of a store on segments, and the laws that the
--   clients rely on, for a store that holds a list of segments.
-- Store/Names, Store/Disk, Store/Log: src/store/store_log.c on POSIX systems. The directory is a list of
--   names with bytes, and every call of the C library ends as an argument says: `fwrite` may take a part of
--   the bytes only, `fclose` may lose what was not flushed, and so on. Names has the names of the files and
--   the reading of their numbers, Log the operations, Log/Abstract what a log is, Log/Publish the calls of
--   an append and how they can end, Log/Append, Log/Accept, Log/Read, Log/Open and Log/Iterate the operations on logs, Log/Laws the
--   log behind the interface. The loop of the iteration has one unit of fuel more than there are numbers from
--   the start to the tip.
-- Store/Driver, Store/Sql, Store/Sqlite: src/store/store_sqlite.c. The calls of SQLite are a record of functions
--   on any connections, statements and rows; Driver has it, Sql the texts of the statements as the source has
--   them, and Assumed what is relied on: what is bound, what the statements change and select, and how a
--   transaction begins and ends, where each call may fail. Texts has, one by one and apart from Sql, the texts
--   of the statements that this is assumed of. The source does not look at the results of the binds; `Binds`
--   is SQLite as long as the binds of blobs succeed, and the theorems that need it have it as a hypothesis. Holds says what the tables hold, Insert has the loop over the records,
--   Transaction what stands between BEGIN and COMMIT, Append, Link, Known and Duplicate the append, Get the access to
--   records, Setup the statements of an opening, Open the opening, Laws the store behind the interface, for segments below 2 ^ 31 bytes, the sizes that its int can hold. The ledger and
--   the session of a node can thus stand on it as on the log. Query has the queries for records, Query/Text the text
--   that they put together. Memory and Samples are tables in memory, and Memory/Lawful shows them to be as assumed. The loops over rows take
--   their fuel from the caller, one unit more than there are rows.
-- Ledger: src/ledger/ledger.c, on any store behind the interface. Chain is the chain of hashes, Verify and
--   Verify/Loop the verification, Flush and Flush/Outcome the flush, Admit and Sound the append, Reach sequences of
--   calls. The clock is an argument of each call, the opening of the store one of vicarl_ledger_open. The
--   loop of the verification has one unit of fuel more than the number of the tip, and the loop that doubles
--   the buffer has 64, enough for 64 to pass SIZE_MAX.
-- P2p/Sync: src/p2p/sync.c and src/p2p/p2p_internal.h, on any store behind the interface. The callback that
--   sends is a function with a state. Keeps has what every call that sends keeps, Synced and Session the chain
--   of the node, Silent the node that waits. The loop that serves segments has two units of fuel more than
--   the distance from the first number to the tip.
-- Ffi: src/ffi/ffi.c. A handle is NULL or has a ledger; a path may be NULL. Ffi/Session is about sequences of
--   calls on a handle from its opening.
-- Core/Samples, Model/Samples, Store/Samples and the modules named Tests apply the theorems at concrete inputs.
--
-- Sizes are those of 64-bit platforms: SIZE_MAX is 2 ^ 64 - 1, and structures have the sizes that they have
-- there. Pointers to objects and to results are never NULL, slices may be; arrays of bytes are
-- lists of numbers, with the length, and that each number is below 256, as hypotheses where they matter. A buffer is not followed behind an error, since
-- every caller disposes of it.
--
-- Not modelled: the text of error messages, releasing memory, the Windows branches, the dispatch in
-- src/store/store_log.c, the closing of handles, and the examples and tests. A crypto backend and SQLite are not part of
-- the program; src/store/store_common.c, src/store/sqlite_util.c, src/store/sqlite_schema.h and src/p2p/peer.c are empty.
pub mod Prelude
pub mod Core
pub mod Model
pub mod Store
pub mod Ledger
pub mod P2p
pub mod Ffi

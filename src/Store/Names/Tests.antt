-- ===== src/Store/Names/Tests.antt =====
-- The names of the files at segment 42.
use vicarl.Prelude.{◌≡◌, some, arith}
use vicarl.Store.Names.{seg_filename, is_seg_name}
use vicarl.Store.Names.RoundTrip.{is_seg_name-seg_filename}

is_seg_name-seg_filename_example : is_seg_name (seg_filename 42) ≡ some 42
is_seg_name-seg_filename_example = is_seg_name-seg_filename 42 (omega arith)

-- ===== src/Store/Driver.antt =====
-- sqlite3.h: the calls of SQLite that src/store/store_sqlite.c makes, on connections, prepared statements
-- and rows of any type.
use vicarl.Prelude.{ℕ, Bool, Option, List}
use vicarl.Core.Types.{Slice}
pub use Prim.Native.String.{String, ◌++◌ as ◌<>◌, len}

-- SQLITE_ROW, SQLITE_DONE, or another code.
pub data Step (Row : Type 0) : Type 0 where
  row : Row → Step Row
  done failed : Step Row

-- A bind takes the bytes, or a slice that may be NULL, and the number that is passed for their length, an
-- int by its 32 bits, and tells whether it succeeds; integers are their 64 bits, and their bind fails only if
-- it is misused. `reset` also clears the bindings. `step` is for the
-- statements that only read, `write` for the others, where the result tells whether it is SQLITE_DONE.
-- A NULL pointer of a column is `none`.
pub record Sqlite (DB Stmt Row : Type 0) : Type 0 where
  pub exec : DB → String → DB × Bool
  pub prepare : DB → String → Option Stmt
  pub bind_int64 : Stmt → ℕ → ℕ → Stmt
  pub bind_blob : Stmt → ℕ → List ℕ → ℕ → Stmt × Bool
  pub bind_text : Stmt → ℕ → Slice → ℕ → Stmt × Bool
  pub reset : Stmt → Stmt
  pub step : DB → Stmt → Stmt × Step Row
  pub write : DB → Stmt → (DB × Stmt) × Bool
  pub column_int64 : Row → ℕ → ℕ
  pub column_blob : Row → ℕ → Option (List ℕ)

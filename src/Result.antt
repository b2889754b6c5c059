-- ===== src/Result.antt =====
-- A Go call that returns a value and an `error`.
use release_hub.Base.{String}

-- `sql.ErrNoRows`, which the program tests for, and any other error, with its text.
pub data GoError : Type 0 where
  no_rows : GoError
  failure : String → GoError

pub data Result (A : Type 0) : Type 0 where
  ok : A → Result A
  err : GoError → Result A

-- `err.Error()`
abbrev pub error_text : GoError → String
error_text no_rows = "sql: no rows in result set"
error_text (failure text) = text

-- ===== src/ErrorHandling.antt =====
-- software/libstf/error_handling.hpp: the Status value that the memory pools return, and
-- check_status, which throws unless a status is OK.
use Prim.Native.String.{String}
use libstf.Base.{ℕ, Bool, ◌==◌, if◌then◌else◌}
use libstf.Base.Action.{Result, runtime_error}

pub data StatusCode : Type 0 where
  ok out_of_memory error : StatusCode

-- The integer that the enumerator stands for.
abbrev pub code_of : StatusCode → ℕ
code_of StatusCode.ok = 0
code_of StatusCode.out_of_memory = 2
code_of StatusCode.error = 3

pub record Status : Type 0 where
  pub code : ℕ
  pub message : String

-- `Status::OK()`
abbrev pub status_ok : Status
status_ok = record { code = code_of StatusCode.ok; message = "" }

-- `Status(StatusCode, msg)`
abbrev pub status : StatusCode → String → Status
status c m = record { code = code_of c; message = m }

-- `Status::ok()`
abbrev pub is_ok : Status → Bool
is_ok s = s.code == code_of StatusCode.ok

pub check_status : Status → Result (Unit {0})
check_status s = if is_ok s then Result.ok tt else Result.err runtime_error

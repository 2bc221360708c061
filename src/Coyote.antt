-- ===== src/Coyote.antt =====
-- The calls that libstf makes of a coyote::cThread, which is not part of the repository: the model
-- keeps the calls that were made, newest first, and what the device answers to a read of a register.
use libstf.Base.{ℕ, Bool, List, ◌∷◌}

-- A local transfer: the address, the length, the stream number and whether it is the last.
pub data Oper : Type 0 where
  local_read local_write local_offload : Oper

pub data Call : Type 0 where
  user_map : ℕ → ℕ → Call
  user_unmap : ℕ → Call
  -- value, register
  set_csr : ℕ → ℕ → Call
  -- operation, address, length, destination stream, last
  invoke : Oper → ℕ → ℕ → ℕ → Bool → Call
  clear_completed : Call

pub record CThread : Type 0 where
  pub calls : List Call
  pub get_csr : ℕ → ℕ

abbrev pub record_call : Call → CThread → CThread
record_call c t = record t { calls = c ∷ t.calls }

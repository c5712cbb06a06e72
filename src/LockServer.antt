-- ===== src/LockServer.antt =====
-- The plain lock server of lock_server.h and lock_server.cc. Every handler holds the mutex; the
-- wait of `acquire` gives it up, so that a handler up to a wait or to its end is one step. The
-- output argument is the second part of a result, and the identifiers of clients are not read.
pub mod Grants
mod Tests
use lab_cse.Prelude.{ℕ, Option, none, some, ◌==◌, if◌then◌else◌}

pub data State : Type 0 where
  free : State
  locked : State

-- `OK` and `NOENT` of `lock_protocol::xxstatus`.
pub data Status : Type 0 where
  ok : Status
  noent : Status

pub record Server : Type 0 where
  pub nacquire : ℕ
  pub lock_pool : ℕ → Option State

-- The constructor.
abbrev pub init : Server
init = record { nacquire = 0; lock_pool = λ _. none }

-- `lock_pool[lid].state = state`
unfoldable pub set_state : Server → ℕ → State → Server
set_state s lid state = record s { lock_pool = λ i. if i == lid then some state else s.lock_pool i }

unfoldable pub stat : Server → ℕ → Status × ℕ
stat s lid = (ok, s.nacquire)

-- The body of `acquire` for what stands in the pool; `none` where the thread waits.
unfoldable pub on_acquire : Server → ℕ → Option State → Option (Server × Status)
unfolding set_state
on_acquire s lid (some State.locked) = none
on_acquire s lid (some State.free) = some (set_state s lid State.locked, ok)
on_acquire s lid none = some (set_state s lid State.free, ok)

-- A thread that waits runs this again when it is woken.
unfoldable pub acquire : Server → ℕ → Option (Server × Status)
unfolding on_acquire
acquire s lid = on_acquire s lid (s.lock_pool lid)

unfoldable pub on_release : Server → ℕ → Option State → Server × Status
unfolding set_state
on_release s lid none = (s, noent)
on_release s lid (some _) = (set_state s lid State.free, ok)

unfoldable pub release : Server → ℕ → Server × Status
unfolding on_release
release s lid = on_release s lid (s.lock_pool lid)

-- ===== src/LockServerCache.antt =====
-- lock_server_cache.h and lock_server_cache.cc: the server that hands cached locks to clients and
-- takes them back by `revoke`. `none` is a failed VERIFY, which aborts the process, or a
-- dereference of the begin of an empty set. `nacquire` is never written.
-- The part of a handler under the mutex is `acquire` or `release`; the outgoing call that follows
-- reads the lock again after the mutex is free, which is `revoke_call` and `retry_call`.
pub mod WaiterSet
pub mod Invariant
pub mod Handlers
pub mod History
pub mod Waiting
mod Tests
use lab_cse.Prelude.{
  ℕ, ◌≡◌, Bool, true, false, Option, none, some, List, [], ◌∷◌, ◌==◌, if◌then◌else◌,
}
use lab_cse.Prelude.Text.{Text, text_eq, is_empty}
use mathlib.Core.Option
use mathlib.Core.Bool.{not, ◌||◌}
use WaiterSet.{Waiters, insert, erase, least, no_waiters}

pub data State : Type 0 where
  free locked revoking retrying : State

-- `lock_protocol::xxstatus`
pub data Status : Type 0 where
  ok retry rpcerr noent ioerr : Status

pub record Lock : Type 0 where
  pub holder : Text
  pub retryer : Text
  pub waiter : Waiters
  pub state : State

abbrev pub new_lock : Lock
new_lock = record { holder = []; retryer = []; waiter = []; state = State.free }

pub record Server : Type 0 where
  pub nacquire : ℕ
  pub lock_pool : ℕ → Option Lock

abbrev pub init : Server
init = record { nacquire = 0; lock_pool = λ _. none }

-- `lock_pool[lid] = l`
abbrev pub update : (ℕ → Option Lock) → ℕ → Lock → ℕ → Option Lock
update pool lid l i = if i == lid then some l else pool i

abbrev pub put : Server → ℕ → Lock → Server
put s lid l = record s { lock_pool = update s.lock_pool lid l }

-- The lock that `acquire` works on: a fresh one where the pool has none.
abbrev pub lock_or_new : Option Lock → Lock
lock_or_new none = new_lock
lock_or_new (some l) = l

abbrev pub lock_of : Server → ℕ → Lock
lock_of s lid = lock_or_new (s.lock_pool lid)

pub record Granted : Type 0 where
  pub lock : Lock
  pub need_revoke : Bool
  pub ret : Status

abbrev verify {ℓ} : {A : Type ℓ} → Bool → A → Option A
verify true a = some a
verify false a = none

-- The second VERIFY of the cases `locked` and `revoking`.
abbrev pub strangers : Lock → Text → Bool
strangers l id = not (is_empty l.holder || (is_empty id || text_eq l.holder id))

-- The `switch` of `acquire`.
unfoldable pub on_acquire : State → Lock → Text → Option Granted
on_acquire free l id = verify (no_waiters l.waiter) (record {
  lock = record l { state = State.locked; holder = id };
  need_revoke = false;
  ret = ok;
})
on_acquire locked l id =
    if no_waiters l.waiter
    then verify (strangers l id) (record {
      lock = record l { state = State.revoking; waiter = insert id l.waiter };
      need_revoke = true;
      ret = retry;
    })
    else none
on_acquire revoking l id =
    if no_waiters l.waiter
    then none
    else verify (strangers l id) (record {
      lock = record l { waiter = insert id l.waiter };
      need_revoke = false;
      ret = retry;
    })
on_acquire retrying l id =
    if text_eq l.retryer id
    then some (
        if no_waiters l.waiter
        then record {
          lock = record l { retryer = []; holder = id; state = State.locked };
          need_revoke = false;
          ret = ok;
        }
        else record {
          lock = record l { retryer = []; holder = id; state = State.revoking };
          need_revoke = true;
          ret = ok;
        })
    else some (record {
      lock = record l { waiter = insert id l.waiter };
      need_revoke = false;
      ret = retry;
    })

pub record Acquired : Type 0 where
  pub server : Server
  pub need_revoke : Bool
  pub ret : Status

unfoldable pub acquire : Server → ℕ → Text → Option Acquired
unfolding on_acquire
acquire s lid id =
    let l = lock_of s lid in
    Option.map (λ g. record { server = put s lid g.lock; need_revoke = g.need_revoke; ret = g.ret })
      (on_acquire l.state l id)

abbrev is_revoking : State → Bool
is_revoking revoking = true
is_revoking _ = false

-- `release` under the mutex, on a lock that the pool has.
unfoldable pub on_release : Lock → Text → Option Lock
on_release l id =
    if is_revoking l.state
    then (if text_eq id l.holder
        then Option.map
            (λ w. record l {
              state = State.retrying;
              retryer = w;
              waiter = erase w l.waiter;
              holder = [];
            })
            (least l.waiter)
        else none)
    else none

-- The new server and the reply.
unfoldable pub release : Server → ℕ → Text → Option (Server × Status)
unfolding on_release
release s lid id = elim (s.lock_pool lid) [
  | none ↦ some (s, noent)
  | some l ↦ Option.map (λ l'. (put s lid l', ok)) (on_release l id)
]

pub stat : Server → ℕ → ℕ × Status
stat s lid = (s.nacquire, ok)

-- `rlock_protocol::rpc_numbers`
pub data Func : Type 0 where
  revoke retry_again : Func

-- A call to the client at `to`.
pub record Call : Type 0 where
  pub to : Text
  pub func : Func
  pub lid : ℕ

-- What `acquire` sends after `mutex.unlock()`, in the state that it then finds.
pub revoke_call : Server → ℕ → Bool → Option Call
revoke_call s lid need_revoke =
    if need_revoke
    then some (record { to = (lock_of s lid).holder; func = revoke; lid = lid })
    else none

-- What `release` sends after `mutex.unlock()`.
pub retry_call : Server → ℕ → Call
retry_call s lid = record { to = (lock_of s lid).retryer; func = retry_again; lid = lid }

-- ===== src/LockClientCache.antt =====
-- lock_client_cache.h and lock_client_cache.cc: the client that keeps locks which it was granted.
-- A handler is cut where it lets go of the mutex: at a wait, and around a call to the server. What a
-- `cond_t` is for one thread that waits, its number is here. `none` is a `front` of an empty queue.
pub mod Threads
pub mod Invariant
pub mod Asking
pub mod Turns
pub mod Passing
pub mod Handlers
pub mod History
pub mod Calls
pub mod Gentle
pub mod Moves
pub mod Service
pub mod Fairness
pub mod Owners
pub mod Exclusion
mod Tests
use lab_cse.Prelude.{
  ℕ, Bool, true, false, Option, none, some, List, [], ◌∷◌, ◌++◌, ◌==◌, if◌then◌else◌,
}
use lab_cse.LockServerCache.{Status, ok, retry, rpcerr, noent, ioerr}

-- `no_lock` is NONE.
pub data State : Type 0 where
  no_lock acquiring free releasing locked : State

pub record CachedLock : Type 0 where
  pub revoke_later : Bool
  pub retry_earlier : Bool
  pub state : State
  pub queue : List ℕ

abbrev pub new_lock : CachedLock
new_lock = record { revoke_later = false; retry_earlier = false; state = no_lock; queue = [] }

-- How a thread in `acquire` goes on when it lets go of the mutex: it calls the server, it waits, at
-- one of three places, or it returns OK; `stuck` is that it returns OK and the mutex stays locked.
pub data Turn : Type 0 where
  calls waits_first waits waits_retry returns stuck : Turn

-- `acquire_server` up to the call.
abbrev pub acquire_server : CachedLock → CachedLock × Turn
acquire_server l = (record l { state = acquiring }, calls)

-- With an empty queue.
unfoldable pub on_empty : State → CachedLock → CachedLock × Turn
on_empty no_lock l = acquire_server l
on_empty free l = (record l { state = locked }, returns)
on_empty acquiring l = (l, waits_first)
on_empty releasing l = (l, waits_first)
on_empty locked l = (l, waits_first)

unfoldable pub acquire_with : List ℕ → CachedLock → ℕ → CachedLock × Turn
unfolding on_empty
acquire_with [] l waiter = on_empty l.state (record l { queue = waiter ∷ [] })
acquire_with (q ∷ qs) l waiter = (record l { queue = (q ∷ qs) ++ (waiter ∷ []) }, waits)

-- `acquire` by the thread with this `waiter`.
unfoldable pub acquire : CachedLock → ℕ → CachedLock × Turn
unfolding acquire_with
acquire l waiter = acquire_with l.queue l waiter

-- After the wait with an empty queue.
abbrev pub woken_first : CachedLock → CachedLock × Turn
woken_first l = acquire_server l

-- After the wait behind others.
unfoldable pub woken : State → CachedLock → CachedLock × Turn
woken no_lock l = acquire_server l
woken free l = (record l { state = locked }, returns)
woken locked l = (l, returns)
woken acquiring l = (l, stuck)
woken releasing l = (l, stuck)

-- The head of the loop of `acquire_server`, and the return behind it.
unfoldable pub again : State → CachedLock → CachedLock × Turn
again acquiring l = (l, calls)
again no_lock l = (l, stuck)
again free l = (l, stuck)
again releasing l = (l, stuck)
again locked l = (l, stuck)

-- After the call of `acquire_server`.
unfoldable pub after_call : Status → CachedLock → CachedLock × Turn
unfolding again
after_call ok l = (record l { state = locked }, returns)
after_call retry l =
    let next = again l.state (record l { retry_earlier = false }) in
    if l.retry_earlier then next else (l, waits_retry)
after_call rpcerr l = again l.state l
after_call noent l = again l.state l
after_call ioerr l = again l.state l

-- After the wait for a retry.
unfoldable pub woken_retry : CachedLock → CachedLock × Turn
unfolding again
woken_retry l = again l.state (record l { retry_earlier = false })

-- The end of `release`, with the thread that is signalled.
unfoldable pub pass_on : List ℕ → CachedLock → Option (CachedLock × Option ℕ)
pass_on [] l = none
pass_on (q ∷ []) l = some (record l { queue = []; revoke_later = false }, none)
pass_on (q ∷ r ∷ qs) l = some (
  record l {
    queue = r ∷ qs;
    state = if l.revoke_later then l.state else locked;
    revoke_later = false;
  },
  some r,
)

-- How `release` goes on: it calls the server, or it has ended.
pub data Released : Type 0 where
  gives_back : CachedLock → Released
  ended : Option (CachedLock × Option ℕ) → Released

unfoldable pub release : CachedLock → Released
unfolding pass_on
release l =
    if l.revoke_later
    then gives_back (record l { state = releasing })
    else ended (pass_on l.queue (record l { state = free }))

-- After the call of `release`.
unfoldable pub after_release : CachedLock → Option (CachedLock × Option ℕ)
unfolding pass_on
after_release l = pass_on l.queue (record l { state = no_lock })

-- `revoke_handler`: whether it calls the server.
unfoldable pub on_revoke : State → CachedLock → CachedLock × Bool
on_revoke free l = (record l { state = releasing }, true)
on_revoke no_lock l = (record l { revoke_later = true }, false)
on_revoke acquiring l = (record l { revoke_later = true }, false)
on_revoke releasing l = (record l { revoke_later = true }, false)
on_revoke locked l = (record l { revoke_later = true }, false)

unfoldable pub revoke_handler : CachedLock → CachedLock × Bool
unfolding on_revoke
revoke_handler l = on_revoke l.state l

abbrev pub front : List ℕ → Option ℕ
front [] = none
front (q ∷ qs) = some q

-- After the call of `revoke_handler`, with the thread that is signalled.
unfoldable pub after_revoke : CachedLock → CachedLock × Option ℕ
after_revoke l = (record l { state = no_lock }, front l.queue)

unfoldable pub retry_with : List ℕ → CachedLock → Option (CachedLock × Option ℕ)
retry_with [] l = none
retry_with (q ∷ qs) l = some (record l { retry_earlier = true }, some q)

unfoldable pub retry_handler : CachedLock → Option (CachedLock × Option ℕ)
unfolding retry_with
retry_handler l = retry_with l.queue l

-- `lock_pool`, with the entry that `operator[]` makes.
pub record LockClientCache : Type 0 where
  pub lock_pool : ℕ → Option CachedLock

abbrev or_new : Option CachedLock → CachedLock
or_new none = new_lock
or_new (some l) = l

abbrev pub lock_of : LockClientCache → ℕ → CachedLock
lock_of c lid = or_new (c.lock_pool lid)

abbrev pub put : LockClientCache → ℕ → CachedLock → LockClientCache
put c lid l = record { lock_pool = λ i. if i == lid then some l else c.lock_pool i }

-- Where the pool has no such lock, `release` returns NOENT.
unfoldable pub release_of : LockClientCache → ℕ → Option Released
release_of c lid = elim (c.lock_pool lid) [ none ↦ none | some l ↦ some (release l) ]

-- ===== src/LockServerCache/Tests.antt =====
-- Runs of lock_server_cache.cc, and the theorems at these runs.
use lab_cse.Prelude.{◌≡◌, refl, true, false, some, none, List, [], ◌∷◌, ◌⊎◌}
use lab_cse.Prelude.Text.{Text, text_eq, text_lt, is_empty}
use lab_cse.LockServerCache.WaiterSet.{insert, erase, has}
use lab_cse.LockServerCache.Handlers.{Served, acquire-Served}
use lab_cse.LockServerCache.History.{
  Event, asked, released, Reach, start, next, asks, releases, owner, told_to_retry, Remembered,
  Reach-Inv, holder-owner, mutual_exclusion, told_to_retry-Remembered,
}
use lab_cse.LockServerCache.Waiting.{revoke_due, waiting_moves_on}
use lab_cse.LockServerCache.{
  Server, Acquired, init, lock_of, acquire, release, ok, retry, revoking, retrying, revoke_call,
  revoke,
}

abbrev alice : Text
alice = b'a' ∷ []

abbrev bob : Text
bob = b'b' ∷ []

abbrev carol : Text
carol = b'c' ∷ []

-- `acquire`, where it does not abort.
abbrev after_acquire : Server → Text → Acquired
unfolding acquire insert text_eq text_lt
after_acquire s id = elim (acquire s 5 id) [
  | none ↦ record { server = s; need_revoke = false; ret = retry }
  | some a ↦ a
]

abbrev after_release : Server → Text → Server
unfolding release erase text_eq
after_release s id = elim (release s 5 id) [ none ↦ s | some (t, _) ↦ t ]

abbrev held : Server
held = (after_acquire init alice).server

abbrev wanted : Server
wanted = (after_acquire held carol).server

abbrev crowded : Server
crowded = (after_acquire wanted bob).server

abbrev passed_on : Server
passed_on = after_release crowded alice

abbrev crowded_events : List Event
crowded_events = asked 5 bob retry ∷ asked 5 carol retry ∷ asked 5 alice ok ∷ []

held-Reach : Reach (asked 5 alice ok ∷ []) held
unfolding acquire insert text_eq text_lt
held-Reach = next start (asks 5 alice (after_acquire init alice) refl refl)

wanted-Reach : Reach (asked 5 carol retry ∷ asked 5 alice ok ∷ []) wanted
unfolding acquire insert text_eq text_lt
wanted-Reach = next held-Reach (asks 5 carol (after_acquire held carol) refl refl)

crowded-Reach : Reach crowded_events crowded
unfolding acquire insert text_eq text_lt
crowded-Reach = next wanted-Reach (asks 5 bob (after_acquire wanted bob) refl refl)

passed_on-Reach : Reach (released 5 alice ok ∷ crowded_events) passed_on
unfolding acquire release insert erase text_eq text_lt
passed_on-Reach = next crowded-Reach (releases 5 alice passed_on ok refl)

-- The first request that finds the lock taken sends a revoke to the holder, the next does not.
revoke_once :
    (revoke_call wanted 5 (after_acquire held carol).need_revoke
      ≡ some (record { to = alice; func = revoke; lid = 5 }))
    × (revoke_call crowded 5 (after_acquire wanted bob).need_revoke ≡ none)
unfolding acquire insert text_eq text_lt revoke_call
revoke_once = (refl, refl)

acquire-Served_example : Served held 5 bob (after_acquire held bob)
unfolding acquire insert text_eq text_lt
acquire-Served_example =
    acquire-Served held 5 bob (after_acquire held bob) (Reach-Inv held-Reach) refl

holder-owner_example : (lock_of held 5).holder ≡ alice
unfolding owner
holder-owner_example = holder-owner 5 held-Reach

mutual_exclusion_example : owner 5 (released 5 alice ok ∷ crowded_events) ≡ []
unfolding acquire release insert erase text_eq text_lt
mutual_exclusion_example =
    mutual_exclusion 5 bob (after_acquire passed_on bob) passed_on-Reach refl refl

told_to_retry-Remembered_example : Remembered (lock_of passed_on 5) carol
unfolding told_to_retry text_eq
told_to_retry-Remembered_example = told_to_retry-Remembered 5 carol passed_on-Reach refl refl

waiting_moves_on_example :
    (((lock_of crowded 5).state ≡ revoking)
      × (is_empty (owner 5 crowded_events) ≡ false)
      × (has (owner 5 crowded_events) (lock_of crowded 5).waiter ≡ false)
      × (revoke_due 5 crowded-Reach ≡ true))
    ⊎ (((lock_of crowded 5).state ≡ retrying)
        × (owner 5 crowded_events ≡ [])
        × (is_empty (lock_of crowded 5).retryer ≡ false))
unfolding acquire insert text_eq text_lt
waiting_moves_on_example = waiting_moves_on 5 crowded-Reach refl

-- ===== src/LockServerCache/Waiting.antt =====
-- The queue of a lock of lock_server_cache.cc over its histories: who is asked for the lock while
-- clients wait.
use lab_cse.Prelude.{
  ℕ, ◌≡◌, refl, ap, subst, Bool, true, false, List, [], arith, if◌then◌else◌, ◌==◌, not, Bool-cases,
  inl, inr, ◌⊎◌, ◌||◌, ◌&&◌, ==_iff,
}
use lab_cse.Prelude.Text.{Text, is_empty}
use lab_cse.LockServerCache.WaiterSet.{no_waiters, has}
use lab_cse.LockServerCache.Invariant.{StateInv, release_parts}
use lab_cse.LockServerCache.Handlers.{Served, acquire-Served, grants, is_revoking}
use lab_cse.LockServerCache.{State, Lock, Server, Acquired, lock_of, revoking, retrying}
use lab_cse.LockServerCache.History.{
  Event, Reach, start, next, asks, releases, is_ok, owner, Reach-Inv, holder-owner, empty_eq,
}

-- `acquire` has told to send a revoke since the lock was last granted, and it was not released
-- since.
unfoldable pub revoke_due : {es : List Event} {s : Server} → ℕ → Reach es s → Bool
revoke_due lid start = false
revoke_due lid (next r (asks l id a named e)) =
    let before = revoke_due lid r in
    if l == lid then a.need_revoke || (not (is_ok a.ret) && before) else before
revoke_due lid (next r (releases l id t st e)) =
    let before = revoke_due lid r in if (l == lid) && is_ok st then false else before

asked-due :
    (b : Bool) (s : Server) (lid : ℕ) (id : Text) (a : Acquired)
    → Served s lid id a
    → (is_revoking (lock_of s lid).state ≡ true → b ≡ true)
    → is_revoking (lock_of a.server lid).state ≡ true
    → (a.need_revoke || (not (is_ok a.ret) && b)) ≡ true
asked-due b s lid id a v old at = elim (Bool-cases (grants (lock_of s lid) id)) [
  | inl c ↦ ground (
    arith,
    v.given c,
    v.revokes,
    at,
    granted_not_revoking (lock_of s lid).state (lock_of s lid) id refl c,
  )
  | inr c ↦ ground (arith, v.queued c, v.revokes, old, at)
]
  where
    granted_not_revoking :
        (st : State) (l : Lock) (id : Text)
        → l.state ≡ st
        → grants l id ≡ true
        → is_revoking l.state ≡ false
    granted_not_revoking revoking l id at c = ground arith
    granted_not_revoking _ l id at c = rw at refl

-- A lock that is being revoked has had its revoke.
revoking-due :
    {es : List Event} {s : Server} (lid : ℕ) (r : Reach es s)
    → is_revoking (lock_of s lid).state ≡ true
    → revoke_due lid r ≡ true
unfolding revoke_due
revoking-due lid start at = cc at
revoking-due lid (next {s = s} r (asks l id a named e)) at =
    let v = acquire-Served s l id a (Reach-Inv r) e in
    elim (Bool-cases (l == lid)) [
      | inl same ↦
          let here = subst (λ i. Served s i id a) ((==_iff l lid).0 same) v in
          rw same (asked-due (revoke_due lid r) s lid id a here (revoking-due lid r) at)
      | inr differ ↦ ground (arith, v.others lid, differ, revoking-due lid r, at)
    ]
revoking-due lid (next {s = s} r (releases l id t st e)) at = elim (release_parts s t l id st e) [
  | inl (_, k, x) ↦ ground (arith, k, x, revoking-due lid r, at)
  | inr (w, _, _, _, k, x) ↦ ground (arith, k, x, revoking-due lid r, at)
]

moves_on :
    (st : State) (l : Lock) (o : Text)
    → l.holder ≡ o
    → l.state ≡ st
    → StateInv st l
    → no_waiters l.waiter ≡ false
    → ((l.state ≡ revoking) × (is_empty o ≡ false) × (has o l.waiter ≡ false))
      ⊎ ((l.state ≡ retrying) × (o ≡ []) × (is_empty l.retryer ≡ false))
moves_on revoking l o own at f h = inl (at, rw (← own) f.0, ground (arith, own))
moves_on retrying l o own at f h = inr (at, ground (arith, own, empty_eq l.holder f.0), f.1)
moves_on _ l o own at f h = ground arith

-- In every reachable state, if a client waits for a lock: either the lock is being revoked, another
-- client than those that wait owns it by the replies, and `acquire` has told to send a revoke since
-- the lock was last granted; or nobody owns it and it is kept for a client that is called back.
pub waiting_moves_on :
    {es : List Event} {s : Server} (lid : ℕ) (r : Reach es s)
    → no_waiters (lock_of s lid).waiter ≡ false
    → (((lock_of s lid).state ≡ revoking)
        × (is_empty (owner lid es) ≡ false)
        × (has (owner lid es) (lock_of s lid).waiter ≡ false)
        × (revoke_due lid r ≡ true))
      ⊎ (((lock_of s lid).state ≡ retrying)
          × (owner lid es ≡ [])
          × (is_empty (lock_of s lid).retryer ≡ false))
waiting_moves_on {es} {s} lid r h =
    elim (moves_on (lock_of s lid).state (lock_of s lid) (owner lid es) (holder-owner lid r) refl
      (Reach-Inv r lid).fields h) [
        | inl (at, named, out) ↦ inl (at, named, out, revoking-due lid r (ap is_revoking at))
        | inr kept ↦ inr kept
      ]

-- ===== src/LockServerCache/Handlers.antt =====
-- What each handler of lock_server_cache.cc replies, changes and sends.
use lab_cse.Prelude.{
  ℕ, ◌≡◌, refl, sym, subst, Bool, true, false, not, none, some, [], arith, ◌==◌, Option-cases, inl,
  inr, ◌↔◌, ◌≢◌, ◌||◌, ◌&&◌, ==_refl, if◌then◌else◌,
}
use lab_cse.Prelude.Text.{Text, text_eq, is_empty, text_eq_iff, text_eq_refl}
use lab_cse.LockServerCache.WaiterSet.{no_waiters, insert, least, has, has-insert}
use lab_cse.LockServerCache.Invariant.{StateInv, LockInv, Inv, acquire_parts, passed}
use lab_cse.LockServerCache.{
  State, Lock, Granted, Server, Acquired, lock_of, put, on_acquire, on_release, acquire, release,
  free, locked, revoking, retrying, ok, retry, retry_call,
}

abbrev pub is_retrying : State → Bool
is_retrying retrying = true
is_retrying _ = false

abbrev pub is_revoking : State → Bool
is_revoking revoking = true
is_revoking _ = false

abbrev pub is_free : State → Bool
is_free free = true
is_free _ = false

-- The lock may be given to `id` now.
abbrev pub grants : Lock → Text → Bool
grants l id = is_free l.state || (is_retrying l.state && text_eq l.retryer id)

record Reply (l : Lock) (id : Text) (g : Granted) : Type 0 where
  given :
      grants l id ≡ true
      → (g.ret ≡ ok)
        × (g.lock.holder ≡ id)
        × (is_empty l.holder ≡ true)
        × (g.lock.state ≡ (if no_waiters l.waiter then locked else revoking))
        × (is_empty g.lock.retryer ≡ true)
        × (g.lock.waiter ≡ l.waiter)
  queued :
      grants l id ≡ false
      → (g.ret ≡ retry)
        × (g.lock.holder ≡ l.holder)
        × (g.lock.retryer ≡ l.retryer)
        × (g.lock.waiter ≡ insert id l.waiter)
        × (g.lock.state ≡ (if is_retrying l.state then retrying else revoking))
  revokes : g.need_revoke ≡ (is_revoking g.lock.state && not (is_revoking l.state))

on_acquire-Reply :
    (st : State) (l : Lock) (id : Text) (g : Granted)
    → l.state ≡ st
    → StateInv st l
    → on_acquire st l id ≡ some g
    → Reply l id g
unfolding on_acquire
on_acquire-Reply free l id g at inv e = ground arith
on_acquire-Reply locked l id g at inv e = ground arith
on_acquire-Reply revoking l id g at inv e = ground arith
on_acquire-Reply retrying l id g at inv e = ground arith

on_acquire-none_iff :
    (st : State) (l : Lock) (id : Text)
    → l.state ≡ st
    → StateInv st l
    → is_empty id ≡ false
    → (on_acquire st l id ≡ none) ↔ (l.holder ≡ id)
unfolding on_acquire
on_acquire-none_iff free l id at inv named = (ground arith, ground (arith))
on_acquire-none_iff locked l id at inv named =
    (ground (arith, text_eq_iff l.holder id), ground (arith, text_eq_iff l.holder id))
on_acquire-none_iff revoking l id at inv named =
    (ground (arith, text_eq_iff l.holder id), ground (arith, text_eq_iff l.holder id))
on_acquire-none_iff retrying l id at inv named = (ground arith, ground arith)

-- `acquire` on a server whose locks are sound aborts in one case only: the client that asks has
-- the lock already.
pub acquire-none_iff :
    (s : Server) (lid : ℕ) (id : Text)
    → Inv s
    → is_empty id ≡ false
    → (acquire s lid id ≡ none) ↔ ((lock_of s lid).holder ≡ id)
unfolding acquire
acquire-none_iff s lid id inv named =
    let l = lock_of s lid in
    let same = on_acquire-none_iff l.state l id refl (inv lid).fields named in
    (
      λ e. elim (Option-cases (on_acquire l.state l id)) [
        | inl h ↦ same.0 h
        | inr (g, h) ↦ ground (arith, h)
      ],
      λ e. ground (arith, same.1 e),
    )

-- What a call of `acquire` that comes to an end replies, changes and sends.
pub record Served (s : Server) (lid : ℕ) (id : Text) (a : Acquired) : Type 0 where
  pub given :
      grants (lock_of s lid) id ≡ true
      → (a.ret ≡ ok)
        × (is_empty (lock_of s lid).holder ≡ true)
        × ((lock_of a.server lid).holder ≡ id)
        × ((lock_of a.server lid).state
            ≡ (if no_waiters (lock_of s lid).waiter then locked else revoking))
        × (is_empty (lock_of a.server lid).retryer ≡ true)
        × ((lock_of a.server lid).waiter ≡ (lock_of s lid).waiter)
  pub queued :
      grants (lock_of s lid) id ≡ false
      → (a.ret ≡ retry)
        × ((lock_of a.server lid).holder ≡ (lock_of s lid).holder)
        × ((lock_of a.server lid).retryer ≡ (lock_of s lid).retryer)
        × (has id (lock_of a.server lid).waiter ≡ true)
        × ((lock_of a.server lid).waiter ≡ insert id (lock_of s lid).waiter)
        × ((lock_of a.server lid).state
            ≡ (if is_retrying (lock_of s lid).state then retrying else revoking))
  pub revokes :
      a.need_revoke
      ≡ (is_revoking (lock_of a.server lid).state && not (is_revoking (lock_of s lid).state))
  pub kept :
      (z : Text) → has z (lock_of s lid).waiter ≡ true → has z (lock_of a.server lid).waiter ≡ true
  pub others : (i : ℕ) → (i == lid) ≡ false → a.server.lock_pool i ≡ s.lock_pool i

on_acquire-kept :
    (st : State) (l : Lock) (id : Text) (g : Granted) (z : Text)
    → on_acquire st l id ≡ some g
    → has z l.waiter ≡ true
    → has z g.lock.waiter ≡ true
unfolding on_acquire
on_acquire-kept free l id g z e h = ground arith
on_acquire-kept _ l id g z e h = ground (arith, has-insert id z l.waiter)

Reply-Served :
    (s : Server) (lid : ℕ) (id : Text) (g : Granted)
    → Reply (lock_of s lid) id g
    → ((z : Text) → has z (lock_of s lid).waiter ≡ true → has z g.lock.waiter ≡ true)
    → Served s lid id
        (record { server = put s lid g.lock; need_revoke = g.need_revoke; ret = g.ret })
Reply-Served s lid id g r kept = record {
  given = λ c. ground (arith, r.given c, ==_refl lid);
  queued = λ c.
      ground
        (arith, r.queued c, ==_refl lid, has-insert id id (lock_of s lid).waiter, text_eq_refl id);
  revokes = ground (arith, r.revokes, ==_refl lid);
  kept = λ z h. ground (arith, kept z h, ==_refl lid);
  others = λ i h. rw h;
}

-- On a server whose locks are sound, a call of `acquire` that comes to an end grants the lock at once
-- if it is free or kept for this client, and only when nobody holds it: the client is its holder,
-- nobody is called back any more, the queue stays, and the lock is locked, or being revoked where
-- clients wait. Otherwise the client is told to retry and put into the queue, the holder and the
-- client that is called back stay, and the lock is being revoked unless it is kept for a client.
-- A revoke is due exactly when the call makes the lock one that is being revoked. No other lock
-- changes.
pub acquire-Served :
    (s : Server) (lid : ℕ) (id : Text) (a : Acquired)
    → Inv s
    → acquire s lid id ≡ some a
    → Served s lid id a
acquire-Served s lid id a inv e =
    let (g, h, k) = acquire_parts s lid id a e in
    let l = lock_of s lid in
    subst (Served s lid id) (sym k) (
      Reply-Served s lid id g (on_acquire-Reply l.state l id g refl (inv lid).fields h)
        (λ z. on_acquire-kept l.state l id g z h))

on_release-runs :
    (l : Lock) (id : Text)
    → LockInv l
    → l.state ≡ revoking
    → l.holder ≡ id
    → (w : Text) × (least l.waiter ≡ some w) × (on_release l id ≡ some (passed l w))
unfolding on_release
on_release-runs l id inv at own =
    let f : StateInv revoking l = subst (λ st. StateInv st l) at inv.fields in
    elim (Option-cases (least l.waiter)) [
      | inl h ↦ ground (arith, f, h)
      | inr (w, h) ↦ (w, h, ground (arith, h, text_eq_iff id l.holder))
    ]

release_runs :
    (s : Server) (lid : ℕ) (id : Text)
    → Inv s
    → (lock_of s lid).state ≡ revoking
    → (lock_of s lid).holder ≡ id
    → (w : Text) × (least (lock_of s lid).waiter ≡ some w)
      × (release s lid id ≡ some (put s lid (passed (lock_of s lid) w), ok))
unfolding release
release_runs s lid id inv at own =
    let (w, h, k) = on_release-runs (lock_of s lid) id (inv lid) at own in
    elim (Option-cases (s.lock_pool lid)) [
      | inl m ↦ ground (arith, m, at)
      | inr (l, m) ↦ (w, h, ground (arith, m, k))
    ]

-- After a release: the least waiter is called, and the lock is kept for it.
pub record HandedOver (s t : Server) (lid : ℕ) : Type 0 where
  pub first : least (lock_of s lid).waiter ≡ some (retry_call t lid).to
  pub unheld : (lock_of t lid).holder ≡ []
  pub served : grants (lock_of t lid) (retry_call t lid).to ≡ true
  pub others_wait : (id : Text) → id ≢ (retry_call t lid).to → grants (lock_of t lid) id ≡ false

put-HandedOver :
    (s : Server) (lid : ℕ) (w : Text)
    → least (lock_of s lid).waiter ≡ some w
    → HandedOver s (put s lid (passed (lock_of s lid) w)) lid
unfolding retry_call
put-HandedOver s lid w h = record {
  first = ground (arith, ==_refl lid);
  unheld = ground (arith, ==_refl lid);
  served = ground (arith, ==_refl lid, text_eq_refl w);
  others_wait = λ id ne. ground (arith, ==_refl lid, text_eq_iff w id);
}

-- A client that holds a lock and was told to give it back can release it, with reply OK: the
-- least waiter is the one that is called, nobody holds the lock, and until that client comes the
-- lock is granted to no other.
pub release-HandedOver :
    (s : Server) (lid : ℕ) (id : Text)
    → Inv s
    → (lock_of s lid).state ≡ revoking
    → (lock_of s lid).holder ≡ id
    → (t : Server) × (release s lid id ≡ some (t, ok)) × HandedOver s t lid
release-HandedOver s lid id inv at own =
    let (w, h, k) = release_runs s lid id inv at own in
    (put s lid (passed (lock_of s lid) w), k, put-HandedOver s lid w h)

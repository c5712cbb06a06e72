-- ===== src/LockClientCache/Moves.antt =====
-- What each step of a client does to the state of its lock.
use lab_cse.Prelude.{
  ℕ, ◌≡◌, refl, ap, sym, subst, ◌∙◌, Bool, true, false, ◌||◌, Option, some, List, [], ◌∷◌, arith,
  if◌then◌else◌, Bool-cases, inl, inr, ◌⊎◌,
}
use lab_cse.LockServerCache.{Status, ok, retry, rpcerr, noent, ioerr}
use lab_cse.LockServerCache.History.{is_ok}
use lab_cse.LockClientCache.{
  State, no_lock, acquiring, free, releasing, locked, CachedLock, Turn, acquire, again, after_call,
  pass_on, Released, gives_back, ended, release, after_release, on_revoke, revoke_handler,
  retry_handler,
}
use lab_cse.LockClientCache.Threads.{
  holding, giving_back, first_wait, Cache, change, given, Act, asks, wakes, answered, lets_go,
  gave_back, revoked, revoke_done, retried, Step, ask, wake_first, wake_behind, wake_retry, answer,
  start_release, end_release, give_back, revoke, end_revoke, call_back,
}
use lab_cse.LockClientCache.Invariant.{fits, Inv, acts-front}
use lab_cse.LockClientCache.Calls.{may_turn}
use lab_cse.LockClientCache.Passing.{holding_state, giving_back_state}
use lab_cse.LockClientCache.Gentle.{
  later, IsLater, is_gentle, is_gentle-may_turn, is_gentle-later, Gentle, acquire_with-Gentle,
  woken-Gentle, retry_with-Gentle, woken_retry-Gentle, again_lock,
}

first_state : (s : State) (r : Bool) → fits s r (first_wait true) ≡ true → s ≡ no_lock
first_state no_lock false f = refl
first_state no_lock true f = refl
first_state acquiring false f = cc f
first_state acquiring true f = cc f
first_state free false f = cc f
first_state free true f = cc f
first_state releasing false f = cc f
first_state releasing true f = cc f
first_state locked false f = cc f
first_state locked true f = cc f

-- `pass_on` leaves the state, or makes it LOCKED if no revoke is to be served.
pass_on_state :
    (qs : List ℕ) (l : CachedLock) (r : CachedLock × Option ℕ)
    → pass_on qs l ≡ some r
    → (r.0.state ≡ l.state) ⊎ ((r.0.state ≡ locked) × (l.revoke_later ≡ false))
unfolding pass_on
pass_on_state [] l r e = cc e
pass_on_state (q ∷ []) l r e = inl (cc e)
pass_on_state (q ∷ x ∷ qs) l r e =
    let s : State = if l.revoke_later then l.state else locked in
    let same : s ≡ r.0.state = cc e in
    elim (Bool-cases l.revoke_later) [
      | inl b ↦ inl (sym same ∙ ap (λ i. if i then l.state else locked) b)
      | inr b ↦ inr (sym same ∙ ap (λ i. if i then l.state else locked) b, b)
    ]

pub record Moves (c d : Cache) : Type 0 where
  pub turn : may_turn c.lock.state d.lock.state ≡ true
  pub later_too : IsLater c → IsLater d

turn_gently : (c d : Cache) → d.revoking ≡ c.revoking → Gentle c.lock d.lock → Moves c d
turn_gently c d r g = record {
  turn = is_gentle-may_turn c.lock.state d.lock.state g.0;
  later_too = λ k.
      ap (λ x. later d.lock.state x d.lock.revoke_later) r
      ∙ ap (later d.lock.state c.revoking) g.1
      ∙ is_gentle-later c.lock.state d.lock.state c.revoking c.lock.revoke_later g.0 k;
}

not_releasing : (s s1 : State) (r b : Bool) → s1 ≡ s → later s r b ≡ true → later s1 r b ≡ true
not_releasing s s1 r b e k = ap (λ x. later x r b) e ∙ k

on_revoke-parts :
    (s : State) (l : CachedLock) (r : Bool)
    → l.state ≡ s
    → (may_turn s (on_revoke s l).0.state ≡ true)
      × (later
            (on_revoke s l).0.state
            (if (on_revoke s l).1 then true else r)
            (on_revoke s l).0.revoke_later
          ≡ true)
unfolding on_revoke
on_revoke-parts free l r e = (refl, refl)
on_revoke-parts no_lock l r e = (ap (may_turn no_lock) e, ap (λ s. later s r true) e)
on_revoke-parts acquiring l r e = (ap (may_turn acquiring) e, ap (λ s. later s r true) e)
on_revoke-parts locked l r e = (ap (may_turn locked) e, ap (λ s. later s r true) e)
on_revoke-parts releasing l r e =
    (ap (may_turn releasing) e, ap (λ s. later s r true) e ∙ ground arith)

-- A step of a client that is not the end of a call.
abbrev pub is_local : Act → Bool
is_local (asks t) = true
is_local (wakes t) = true
is_local (lets_go t) = true
is_local (revoked b) = true
is_local retried = true
is_local (answered t st) = false
is_local (gave_back t) = false
is_local revoke_done = false

start-Moves :
    (c : Cache) (t : ℕ) (l : CachedLock)
    → c.lock.state ≡ locked
    → release c.lock ≡ gives_back l
    → Moves c (record c { lock = l; phase = change c.phase t giving_back })
unfolding release
start-Moves c t l s e =
    let back : Released = gives_back (record c.lock { state = releasing }) in
    let end : Released = ended (pass_on c.lock.queue (record c.lock { state = free })) in
    elim (Bool-cases c.lock.revoke_later) [
      | inl b ↦
          let same : back ≡ gives_back l = sym (ap (λ i. if i then back else end) b) ∙ e in
          let z : record c.lock { state = releasing } ≡ l = cc same in
          subst (λ x. Moves c (record c { lock = x; phase = change c.phase t giving_back })) z
            (record {
              turn = ap (λ x. may_turn x releasing) s;
              later_too = λ k. ap (λ x. c.revoking || x) b ∙ ground arith;
            })
      | inr b ↦
          let same : end ≡ gives_back l = sym (ap (λ i. if i then back else end) b) ∙ e in
          absurd (cc same)
    ]

end-Moves :
    (c : Cache) (t : ℕ) (r : CachedLock × Option ℕ)
    → c.lock.state ≡ locked
    → release c.lock ≡ ended (some r)
    → Moves c (given c t r)
unfolding release
end-Moves c t r s e =
    let l : CachedLock = record c.lock { state = free } in
    let back : Released = gives_back (record c.lock { state = releasing }) in
    let end : Released = ended (pass_on c.lock.queue l) in
    elim (Bool-cases c.lock.revoke_later) [
      | inl b ↦
          let same : back ≡ ended (some r) = sym (ap (λ i. if i then back else end) b) ∙ e in
          absurd (cc same)
      | inr b ↦
          let same : end ≡ ended (some r) = sym (ap (λ i. if i then back else end) b) ∙ e in
          let z : pass_on c.lock.queue l ≡ some r = cc same in
          elim (pass_on_state c.lock.queue l r z) [
            | inl f ↦ record {
              turn = ap (may_turn c.lock.state) f ∙ ap (λ x. may_turn x free) s;
              later_too = λ k. ap (λ x. later x c.revoking r.0.revoke_later) f;
            }
            | inr (f, _) ↦ record {
              turn = ap (may_turn c.lock.state) f ∙ ap (λ x. may_turn x locked) s;
              later_too = λ k. ap (λ x. later x c.revoking r.0.revoke_later) f;
            }
          ]
    ]

pub Step-Moves : {c d : Cache} {a : Act} → Inv c → Step c a d → is_local a ≡ true → Moves c d
unfolding acquire revoke_handler retry_handler
Step-Moves {c} i (ask t p) h = turn_gently c _ refl (acquire_with-Gentle c.lock.queue c.lock t)
Step-Moves {c} i (wake_first t p) h =
    let (_, _, f) = acts-front c t (first_wait true) i p refl in
    let s = first_state c.lock.state c.revoking f in
    turn_gently c _ refl (ap (λ x. is_gentle x acquiring) s, refl)
Step-Moves {c} i (wake_behind t p) h = turn_gently c _ refl (woken-Gentle c.lock.state c.lock refl)
Step-Moves {c} i (wake_retry t p) h = turn_gently c _ refl (woken_retry-Gentle c.lock)
Step-Moves {c} i (start_release t l p e) h =
    let (_, _, f) = acts-front c t holding i p refl in
    start-Moves c t l (holding_state c.lock.state c.revoking f).0 e
Step-Moves {c} i (end_release t r p e) h =
    let (_, _, f) = acts-front c t holding i p refl in
    end-Moves c t r (holding_state c.lock.state c.revoking f).0 e
Step-Moves {c} i (revoke l b e) h =
    let (m, k) = on_revoke-parts c.lock.state c.lock c.revoking refl in
    subst (λ x. Moves c (record c { lock = x.0; revoking = if x.1 then true else c.revoking })) e
      (record { turn = m; later_too = λ _. k })
Step-Moves {c} i (call_back l s at e) h =
    turn_gently c _ refl (retry_with-Gentle c.lock.queue c.lock (l, s) e)
Step-Moves i (answer t st p) h = cc h
Step-Moves i (give_back t r p e) h = cc h
Step-Moves i (end_revoke l s on e) h = cc h

-- After an answer the client has the lock, or it still asks.
pub after_call_state :
    (st : Status) (l : CachedLock)
    → l.state ≡ acquiring
    → (after_call st l).0.state ≡ (if is_ok st then locked else acquiring)
unfolding after_call
after_call_state ok l e = refl
after_call_state retry l e = elim (Bool-cases l.retry_earlier) [
  | inl b ↦
      ap (λ x. (x.0).state)
        (ap (λ i. pick i (again l.state (record l { retry_earlier = false })) (l, Turn.waits_retry))
          b)
      ∙ ap (λ x. x.state) (again_lock l.state (record l { retry_earlier = false }))
      ∙ e
  | inr b ↦
      ap (λ x. (x.0).state)
        (ap (λ i. pick i (again l.state (record l { retry_earlier = false })) (l, Turn.waits_retry))
          b)
      ∙ e
]
  where
    pick : Bool → CachedLock × Turn → CachedLock × Turn → CachedLock × Turn
    pick i x y = if i then x else y
after_call_state rpcerr l e = ap (λ x. x.state) (again_lock l.state l) ∙ e
after_call_state noent l e = ap (λ x. x.state) (again_lock l.state l) ∙ e
after_call_state ioerr l e = ap (λ x. x.state) (again_lock l.state l) ∙ e

-- After a `release` that called the server, the client has no lock.
pub after_release_state :
    (c : Cache) (t : ℕ) (r : CachedLock × Option ℕ)
    → Inv c
    → IsLater c
    → c.phase t ≡ giving_back
    → after_release c.lock ≡ some r
    → (c.lock.state ≡ releasing) × (r.0.state ≡ no_lock)
unfolding after_release
after_release_state c t r i k p e =
    let (_, _, f) = acts-front c t giving_back i p refl in
    let (s, quiet) = giving_back_state c.lock.state c.revoking f in
    let set : c.lock.revoke_later ≡ true =
      sym (ap (λ x. later x false c.lock.revoke_later) s)
      ∙ sym (ap (λ b. later c.lock.state b c.lock.revoke_later) quiet)
      ∙ k in
    elim (pass_on_state c.lock.queue (record c.lock { state = no_lock }) r e) [
      | inl g ↦ (s, g)
      | inr (g, b) ↦ absurd (cc (set, b))
    ]

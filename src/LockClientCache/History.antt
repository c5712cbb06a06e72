-- ===== src/LockClientCache/History.antt =====
-- Histories of the threads of one client that use one lock.
use lab_cse.Prelude.{ℕ, ◌≡◌, refl, subst, Bool, true, false, Option, some, inl, inr}
use lab_cse.LockClientCache.{
  State, no_lock, acquiring, free, releasing, locked, acquire, after_release, retry_handler,
}
use lab_cse.LockClientCache.Threads.{
  holding, giving_back, lost, Cache, new_cache, change, signal, given, Act, Step, ask, wake_first,
  wake_behind, wake_retry, answer, start_release, end_release, give_back, revoke, end_revoke,
  call_back,
}
use lab_cse.LockClientCache.Invariant.{fits, Inv, new_cache-Inv, acts-front}
use lab_cse.LockClientCache.Asking.{acquire_with-Inv}
use lab_cse.LockClientCache.Turns.{woken_first-Inv, woken-Inv, woken_retry-Inv, after_call-Inv}
use lab_cse.LockClientCache.Passing.{release_parts, after_release_parts}
use lab_cse.LockClientCache.Handlers.{revoke_handler-Inv, after_revoke-Inv, retry_parts}

same_some : {A : Type 0} (x y : A) (r : Option A) → r ≡ some x → r ≡ some y → x ≡ y
same_some x y r e f = cc (e, f)

pub Step-Inv : {c d : Cache} {a : Act} → Step c a d → Inv c → Inv d
unfolding acquire
Step-Inv {c} (ask t p) i = acquire_with-Inv c t c.lock.queue refl i p
Step-Inv {c} (wake_first t p) i = woken_first-Inv c t i p
Step-Inv {c} (wake_behind t p) i = woken-Inv c t i p
Step-Inv {c} (wake_retry t p) i = woken_retry-Inv c t i p
Step-Inv {c} (answer t st p) i = after_call-Inv c t st i p
Step-Inv {c} (start_release t l p e) i = elim (release_parts c t i p) [
  | inl (f, k) ↦
      let same : record c.lock { state = releasing } ≡ l = cc (e, f) in
      subst (λ x. Inv (record c { lock = x; phase = change c.phase t giving_back })) same k
  | inr (r, f, k) ↦ absurd (cc (e, f))
]
Step-Inv {c} (end_release t r p e) i = elim (release_parts c t i p) [
  | inl (f, k) ↦ absurd (cc (e, f))
  | inr (q, f, k) ↦ let same : q ≡ r = cc (e, f) in subst (λ x. Inv (given c t x)) same k
]
Step-Inv {c} (give_back t r p e) i =
    let (q, f, k) = after_release_parts c t i p in
    subst (λ x. Inv (given c t x)) (same_some q r (after_release c.lock) f e) k
Step-Inv {c} (revoke l b e) i = revoke_handler-Inv c l b i e
Step-Inv {c} (end_revoke l s on e) i = after_revoke-Inv c l s i on e
Step-Inv {c} (call_back l s at e) i =
    let (r, f, k) = retry_parts c i at in
    subst (λ x. Inv (record c { lock = x.0; phase = signal c.phase x.1 }))
      (same_some r (l, s) (retry_handler c.lock) f e) k

pub data Runs : Cache → Type 0 where
  start : Runs new_cache
  next : {c d : Cache} {a : Act} → Runs c → Step c a d → Runs d

pub Runs-Inv : {c : Cache} → Runs c → Inv c
Runs-Inv start = new_cache-Inv
Runs-Inv (next r s) = Step-Inv s (Runs-Inv r)

pub Inv-one_holder :
    (c : Cache) (t u : ℕ) → Inv c → c.phase t ≡ holding → c.phase u ≡ holding → t ≡ u
Inv-one_holder c t u i p q =
    let (ts, at, _) = acts-front c t holding i p refl in
    let (us, by, _) = acts-front c u holding i q refl in cc (at, by)

fits_lost : (s : State) (r : Bool) → fits s r lost ≡ false
fits_lost no_lock false = refl
fits_lost no_lock true = refl
fits_lost acquiring false = refl
fits_lost acquiring true = refl
fits_lost free false = refl
fits_lost free true = refl
fits_lost releasing false = refl
fits_lost releasing true = refl
fits_lost locked false = refl
fits_lost locked true = refl

-- In every run of the threads of one client that use a lock, where waits end by signals only: no
-- thread returns OK with the mutex still locked.
pub never_lost : {c : Cache} → Runs c → (t : ℕ) → ¬ (c.phase t ≡ lost)
never_lost {c} r t p =
    let (_, _, f) = acts-front c t lost (Runs-Inv r) p refl in
    cc (f, fits_lost c.lock.state c.revoking)

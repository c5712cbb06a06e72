-- ===== src/LockClientCache/Turns.antt =====
-- The turns of threads that are woken or get an answer.
use lab_cse.Prelude.{ℕ, ◌≡◌, refl, ap, sym, subst, ◌∙◌, Bool, true, false, List, ◌∷◌, if◌then◌else◌}
use lab_cse.LockServerCache.{Status, ok, retry, rpcerr, noent, ioerr}
use lab_cse.LockClientCache.{
  State, no_lock, acquiring, free, releasing, locked, CachedLock, Turn, waits_retry, woken_first,
  woken, again, after_call, woken_retry,
}
use lab_cse.LockClientCache.Threads.{
  calling, holding, first_wait, wait, retry_wait, phase_of, Cache, turned,
}
use lab_cse.LockClientCache.Invariant.{fits, Inv, acts-front, front_step}
use lab_cse.LockClientCache.Asking.{Turns}

after_first :
    (s : State) (r : Bool) → fits s r (first_wait true) ≡ true → fits acquiring r calling ≡ true
after_first s false e = refl
after_first no_lock true e = cc e
after_first acquiring true e = cc e
after_first free true e = cc e
after_first releasing true e = cc e
after_first locked true e = cc e

woken-Turns :
    (s : State) (r : Bool) (l : CachedLock)
    → l.state ≡ s
    → fits s r (wait true) ≡ true
    → Turns l r (woken s l)
unfolding woken
woken-Turns no_lock false l e f = (refl, refl)
woken-Turns locked false l e f = (refl, ap (λ s. fits s false holding) e)
woken-Turns no_lock true l e f = cc f
woken-Turns locked true l e f = cc f
woken-Turns free false l e f = cc f
woken-Turns free true l e f = cc f
woken-Turns acquiring false l e f = cc f
woken-Turns acquiring true l e f = cc f
woken-Turns releasing false l e f = cc f
woken-Turns releasing true l e f = cc f

-- Who calls the server or waits for a retry finds the state ACQUIRING.
pub calling_state : (s : State) (r : Bool) → fits s r calling ≡ true → (s ≡ acquiring) × (r ≡ false)
calling_state no_lock false f = cc f
calling_state no_lock true f = cc f
calling_state acquiring false f = (refl, refl)
calling_state acquiring true f = cc f
calling_state free false f = cc f
calling_state free true f = cc f
calling_state releasing false f = cc f
calling_state releasing true f = cc f
calling_state locked false f = cc f
calling_state locked true f = cc f

fits_retry : (s : State) (r b : Bool) → fits s r (retry_wait b) ≡ fits s r calling
fits_retry no_lock false b = refl
fits_retry no_lock true b = refl
fits_retry acquiring false b = refl
fits_retry acquiring true b = refl
fits_retry free false b = refl
fits_retry free true b = refl
fits_retry releasing false b = refl
fits_retry releasing true b = refl
fits_retry locked false b = refl
fits_retry locked true b = refl

again-Turns :
    (l l1 : CachedLock) (s : State)
    → s ≡ acquiring
    → l1.state ≡ s
    → l1.queue ≡ l.queue
    → Turns l false (again s l1)
unfolding again
again-Turns l l1 acquiring e f q = (q, ap (λ s. fits s false calling) f)
again-Turns l l1 no_lock e f q = cc e
again-Turns l l1 free e f q = cc e
again-Turns l l1 releasing e f q = cc e
again-Turns l l1 locked e f q = cc e

after_call-Turns :
    (st : Status) (l : CachedLock) → l.state ≡ acquiring → Turns l false (after_call st l)
unfolding after_call
after_call-Turns ok l e = (refl, refl)
after_call-Turns retry l e =
    let next = again l.state (record l { retry_earlier = false }) in
    let k = again-Turns l (record l { retry_earlier = false }) l.state e refl refl in
    one_of l.retry_earlier next (l, waits_retry) k
      (refl, ap (λ s. fits s false (retry_wait false)) e)
  where
    one_of :
        (b : Bool) (x y : CachedLock × Turn)
        → Turns l false x
        → Turns l false y
        → Turns l false (if b then x else y)
    one_of true x y h k = h
    one_of false x y h k = k
after_call-Turns rpcerr l e = again-Turns l l l.state e refl refl
after_call-Turns noent l e = again-Turns l l l.state e refl refl
after_call-Turns ioerr l e = again-Turns l l l.state e refl refl

-- The front of the queue does its turn.
turned-Inv :
    (c : Cache) (t : ℕ) (rest : List ℕ) (k : CachedLock × Turn)
    → Inv c
    → c.lock.queue ≡ t ∷ rest
    → Turns c.lock c.revoking k
    → Inv (turned c t k)
turned-Inv c t rest k i at h = front_step c t rest k.0 c.revoking (phase_of k.1) i at h.0 h.1

pub woken_first-Inv :
    (c : Cache) (t : ℕ)
    → Inv c
    → c.phase t ≡ first_wait true
    → Inv (turned c t (woken_first c.lock))
woken_first-Inv c t i p =
    let (rest, at, f) = acts-front c t (first_wait true) i p refl in
    turned-Inv c t rest (woken_first c.lock) i at (refl, after_first c.lock.state c.revoking f)

pub woken-Inv :
    (c : Cache) (t : ℕ)
    → Inv c
    → c.phase t ≡ wait true
    → Inv (turned c t (woken c.lock.state c.lock))
woken-Inv c t i p =
    let (rest, at, f) = acts-front c t (wait true) i p refl in
    turned-Inv c t rest (woken c.lock.state c.lock) i at
      (woken-Turns c.lock.state c.revoking c.lock refl f)

pub woken_retry-Inv :
    (c : Cache) (t : ℕ)
    → Inv c
    → c.phase t ≡ retry_wait true
    → Inv (turned c t (woken_retry c.lock))
unfolding woken_retry
woken_retry-Inv c t i p =
    let (rest, at, f) = acts-front c t (retry_wait true) i p refl in
    let (s, r) =
      calling_state c.lock.state c.revoking (sym (fits_retry c.lock.state c.revoking true) ∙ f) in
    let k = again-Turns c.lock (record c.lock { retry_earlier = false }) c.lock.state s refl refl in
    turned-Inv c t rest (woken_retry c.lock) i at
      (subst (λ b. Turns c.lock b (woken_retry c.lock)) (sym r) k)

pub after_call-Inv :
    (c : Cache) (t : ℕ) (st : Status)
    → Inv c
    → c.phase t ≡ calling
    → Inv (turned c t (after_call st c.lock))
after_call-Inv c t st i p =
    let (rest, at, f) = acts-front c t calling i p refl in
    let (s, r) = calling_state c.lock.state c.revoking f in
    turned-Inv c t rest (after_call st c.lock) i at
      (subst (λ b. Turns c.lock b (after_call st c.lock)) (sym r) (after_call-Turns st c.lock s))

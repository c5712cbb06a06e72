-- ===== src/LockClientCache/Handlers.antt =====
-- The two handlers that the server calls.
use lab_cse.Prelude.{
  ℕ, ◌≡◌, refl, ap, sym, subst, ◌∙◌, Bool, true, false, Option, some, List, [], ◌∷◌, if◌then◌else◌,
}
use lab_cse.LockClientCache.{
  State, no_lock, acquiring, free, releasing, locked, CachedLock, on_revoke, revoke_handler, front,
  after_revoke, retry_with, retry_handler,
}
use lab_cse.LockClientCache.Threads.{
  Phase, idle, calling, holding, giving_back, lost, first_wait, wait, retry_wait, wake, Cache,
  signal,
}
use lab_cse.LockClientCache.Invariant.{
  elem, is_distinct, fits, fits_empty, front_fits, all_wait, behind, Inv, front_step,
}

fits_free : (r : Bool) (p : Phase) → fits free r p ≡ false
fits_free false idle = refl
fits_free false calling = refl
fits_free false holding = refl
fits_free false giving_back = refl
fits_free false lost = refl
fits_free false (first_wait b) = refl
fits_free false (wait b) = refl
fits_free false (retry_wait b) = refl
fits_free true idle = refl
fits_free true calling = refl
fits_free true holding = refl
fits_free true giving_back = refl
fits_free true lost = refl
fits_free true (first_wait b) = refl
fits_free true (wait b) = refl
fits_free true (retry_wait b) = refl

-- While `revoke_handler` calls, who is at the front waits for its end.
revoking_front : (s : State) (p : Phase) → fits s true p ≡ true → p ≡ first_wait false
revoking_front no_lock idle f = cc f
revoking_front no_lock calling f = cc f
revoking_front no_lock holding f = cc f
revoking_front no_lock giving_back f = cc f
revoking_front no_lock lost f = cc f
revoking_front no_lock (first_wait false) f = refl
revoking_front no_lock (first_wait true) f = cc f
revoking_front no_lock (wait false) f = cc f
revoking_front no_lock (wait true) f = cc f
revoking_front no_lock (retry_wait false) f = cc f
revoking_front no_lock (retry_wait true) f = cc f
revoking_front acquiring idle f = cc f
revoking_front acquiring calling f = cc f
revoking_front acquiring holding f = cc f
revoking_front acquiring giving_back f = cc f
revoking_front acquiring lost f = cc f
revoking_front acquiring (first_wait false) f = refl
revoking_front acquiring (first_wait true) f = cc f
revoking_front acquiring (wait false) f = cc f
revoking_front acquiring (wait true) f = cc f
revoking_front acquiring (retry_wait false) f = cc f
revoking_front acquiring (retry_wait true) f = cc f
revoking_front free idle f = cc f
revoking_front free calling f = cc f
revoking_front free holding f = cc f
revoking_front free giving_back f = cc f
revoking_front free lost f = cc f
revoking_front free (first_wait false) f = refl
revoking_front free (first_wait true) f = cc f
revoking_front free (wait false) f = cc f
revoking_front free (wait true) f = cc f
revoking_front free (retry_wait false) f = cc f
revoking_front free (retry_wait true) f = cc f
revoking_front releasing idle f = cc f
revoking_front releasing calling f = cc f
revoking_front releasing holding f = cc f
revoking_front releasing giving_back f = cc f
revoking_front releasing lost f = cc f
revoking_front releasing (first_wait false) f = refl
revoking_front releasing (first_wait true) f = cc f
revoking_front releasing (wait false) f = cc f
revoking_front releasing (wait true) f = cc f
revoking_front releasing (retry_wait false) f = cc f
revoking_front releasing (retry_wait true) f = cc f
revoking_front locked idle f = cc f
revoking_front locked calling f = cc f
revoking_front locked holding f = cc f
revoking_front locked giving_back f = cc f
revoking_front locked lost f = cc f
revoking_front locked (first_wait false) f = refl
revoking_front locked (first_wait true) f = cc f
revoking_front locked (wait false) f = cc f
revoking_front locked (wait true) f = cc f
revoking_front locked (retry_wait false) f = cc f
revoking_front locked (retry_wait true) f = cc f

fits-wake : (r : Bool) (p : Phase) → fits acquiring r p ≡ true → fits acquiring r (wake p) ≡ true
fits-wake false idle f = cc f
fits-wake false calling f = refl
fits-wake false holding f = cc f
fits-wake false giving_back f = cc f
fits-wake false lost f = cc f
fits-wake false (first_wait b) f = cc f
fits-wake false (wait b) f = cc f
fits-wake false (retry_wait b) f = refl
fits-wake true idle f = cc f
fits-wake true calling f = cc f
fits-wake true holding f = cc f
fits-wake true giving_back f = cc f
fits-wake true lost f = cc f
fits-wake true (first_wait b) f = cc f
fits-wake true (wait b) f = cc f
fits-wake true (retry_wait b) f = cc f

noted :
    (c : Cache) (l : CachedLock)
    → Inv c
    → l.queue ≡ c.lock.queue
    → l.state ≡ c.lock.state
    → Inv (record c { lock = l })
noted c l i q s = record {
  front =
      ap (front_fits l.state c.revoking c.phase) q
      ∙ ap (λ x. front_fits x c.revoking c.phase c.lock.queue) s
      ∙ i.front;
  rest = ap (λ x. all_wait c.phase (behind x)) q ∙ i.rest;
  distinct = ap is_distinct q ∙ i.distinct;
  outside = λ t h. i.outside t (sym (ap (elem t) q) ∙ h);
}

-- A lock that is free has no queue.
free-empty :
    (c : Cache) (qs : List ℕ) → c.lock.queue ≡ qs → Inv c → c.lock.state ≡ free → c.lock.queue ≡ []
free-empty c [] e i s = e
free-empty c (q ∷ qs) e i s =
    let f : fits free c.revoking (c.phase q) ≡ true =
      sym (ap (λ x. fits x c.revoking (c.phase q)) s)
      ∙ sym (ap (front_fits c.lock.state c.revoking c.phase) e)
      ∙ i.front in
    absurd (cc (f, fits_free c.revoking (c.phase q)))

abbrev Revoked : Cache → CachedLock × Bool → Type 0
Revoked c k = Inv (record c { lock = k.0; revoking = if k.1 then true else c.revoking })

on_revoke-Revoked :
    (c : Cache) (s : State) → c.lock.state ≡ s → Inv c → Revoked c (on_revoke s c.lock)
unfolding on_revoke
on_revoke-Revoked c free e i =
    let empty = free-empty c c.lock.queue refl i e in
    record {
      front = ap (front_fits releasing true c.phase) empty;
      rest = i.rest;
      distinct = i.distinct;
      outside = i.outside;
    }
on_revoke-Revoked c no_lock e i = noted c (record c.lock { revoke_later = true }) i refl refl
on_revoke-Revoked c acquiring e i = noted c (record c.lock { revoke_later = true }) i refl refl
on_revoke-Revoked c releasing e i = noted c (record c.lock { revoke_later = true }) i refl refl
on_revoke-Revoked c locked e i = noted c (record c.lock { revoke_later = true }) i refl refl

pub revoke_handler-Inv :
    (c : Cache) (l : CachedLock) (b : Bool)
    → Inv c
    → revoke_handler c.lock ≡ (l, b)
    → Inv (record c { lock = l; revoking = if b then true else c.revoking })
unfolding revoke_handler
revoke_handler-Inv c l b i e = subst (Revoked c) e (on_revoke-Revoked c c.lock.state refl i)

abbrev Woken : Cache → Bool → CachedLock × Option ℕ → Type 0
Woken c b k = Inv (record { lock = k.0; phase = signal c.phase k.1; revoking = b })

after_revoke-Woken :
    (c : Cache) (qs : List ℕ)
    → c.lock.queue ≡ qs
    → Inv c
    → c.revoking ≡ true
    → Woken c false (record c.lock { state = no_lock }, front qs)
after_revoke-Woken c [] at i on = record {
  front = ap (front_fits no_lock false c.phase) at;
  rest = i.rest;
  distinct = i.distinct;
  outside = i.outside;
}
after_revoke-Woken c (q ∷ qs) at i on =
    let f : fits c.lock.state true (c.phase q) ≡ true =
      sym (ap (λ b. fits c.lock.state b (c.phase q)) on)
      ∙ sym (ap (front_fits c.lock.state c.revoking c.phase) at)
      ∙ i.front in
    let p = revoking_front c.lock.state (c.phase q) f in
    front_step c q qs (record c.lock { state = no_lock }) false (wake (c.phase q)) i at refl
      (ap (λ x. fits no_lock false (wake x)) p)

pub after_revoke-Inv :
    (c : Cache) (l : CachedLock) (s : Option ℕ)
    → Inv c
    → c.revoking ≡ true
    → after_revoke c.lock ≡ (l, s)
    → Inv (record { lock = l; phase = signal c.phase s; revoking = false })
unfolding after_revoke
after_revoke-Inv c l s i on e =
    subst (Woken c false) e (after_revoke-Woken c c.lock.queue refl i on)

retry_with-Woken :
    (c : Cache) (qs : List ℕ)
    → c.lock.queue ≡ qs
    → Inv c
    → c.lock.state ≡ acquiring
    → (r : CachedLock × Option ℕ) × (retry_with qs c.lock ≡ some r) × Woken c c.revoking r
unfolding retry_with
retry_with-Woken c [] at i s =
    let f : fits_empty acquiring c.revoking ≡ true =
      sym (ap (λ x. fits_empty x c.revoking) s)
      ∙ sym (ap (front_fits c.lock.state c.revoking c.phase) at)
      ∙ i.front in
    absurd (cc f)
retry_with-Woken c (q ∷ qs) at i s =
    let f : fits acquiring c.revoking (c.phase q) ≡ true =
      sym (ap (λ x. fits x c.revoking (c.phase q)) s)
      ∙ sym (ap (front_fits c.lock.state c.revoking c.phase) at)
      ∙ i.front in
    let l : CachedLock = record c.lock { retry_earlier = true } in
    (
      (l, some q),
      refl,
      front_step c q qs l c.revoking (wake (c.phase q)) i at refl
          (ap (λ x. fits x c.revoking (wake (c.phase q))) s ∙ fits-wake c.revoking (c.phase q) f),
    )

-- While the client asks, a retry finds a thread to signal.
pub retry_parts :
    (c : Cache)
    → Inv c
    → c.lock.state ≡ acquiring
    → (r : CachedLock × Option ℕ) × (retry_handler c.lock ≡ some r)
      × Inv (record c { lock = r.0; phase = signal c.phase r.1 })
unfolding retry_handler
retry_parts c i s = retry_with-Woken c c.lock.queue refl i s

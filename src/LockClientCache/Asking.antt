-- ===== src/LockClientCache/Asking.antt =====
-- A thread that asks for the lock keeps the invariant.
use lab_cse.Prelude.{
  ℕ, ◌≡◌, refl, ap, sym, ◌∙◌, Bool, true, false, ◌||◌, List, [], ◌∷◌, ◌++◌, arith, ◌==◌, Bool-cases,
  inl, inr,
}
use lab_cse.LockClientCache.{
  State, no_lock, acquiring, free, releasing, locked, CachedLock, Turn, waits, on_empty,
  acquire_with,
}
use lab_cse.LockClientCache.Threads.{Phase, idle, first_wait, wait, phase_of, Cache, change, turned}
use lab_cse.LockClientCache.Invariant.{
  elem, is_distinct, fits, fits_empty, front_fits, is_waiting, all_wait, behind, Inv, change_there,
  change_apart, all_wait-change, waiting_elem,
}

fits_idle : (s : State) (r : Bool) → fits s r idle ≡ false
fits_idle no_lock false = refl
fits_idle no_lock true = refl
fits_idle acquiring false = refl
fits_idle acquiring true = refl
fits_idle free false = refl
fits_idle free true = refl
fits_idle releasing false = refl
fits_idle releasing true = refl
fits_idle locked false = refl
fits_idle locked true = refl

idle_outside :
    (c : Cache) (t : ℕ) (qs : List ℕ)
    → c.lock.queue ≡ qs
    → Inv c
    → c.phase t ≡ idle
    → elem t qs ≡ false
idle_outside c t [] e i p = refl
idle_outside c t (q ∷ qs) e i p = elim (Bool-cases (t == q)) [
  | inl same ↦
      let z : t ≡ q = ground arith in
      let f : front_fits c.lock.state c.revoking c.phase (q ∷ qs) ≡ true =
        sym (ap (front_fits c.lock.state c.revoking c.phase) e) ∙ i.front in
      let here : c.phase q ≡ idle = sym (ap c.phase z) ∙ p in
      let no : fits c.lock.state c.revoking (c.phase q) ≡ false =
        ap (fits c.lock.state c.revoking) here ∙ fits_idle c.lock.state c.revoking in
      absurd (cc (f, no))
  | inr apart ↦ elim (Bool-cases (elem t qs)) [
    | inr away ↦ ground arith
    | inl inside ↦
        let w : all_wait c.phase qs ≡ true =
          sym (ap (λ l. all_wait c.phase (behind l)) e) ∙ i.rest in
        let k = waiting_elem c.phase t qs w inside in
        let no : is_waiting (c.phase t) ≡ false = ap is_waiting p in absurd (cc (k, no))
  ]
]

-- The first thread of a queue.
alone_step :
    (c : Cache) (t : ℕ) (l : CachedLock) (p : Phase)
    → Inv c
    → c.lock.queue ≡ []
    → l.queue ≡ t ∷ []
    → fits l.state c.revoking p ≡ true
    → Inv (record c { lock = l; phase = change c.phase t p })
alone_step c t l p i empty at f = record {
  front =
      ap (front_fits l.state c.revoking (change c.phase t p)) at
      ∙ ap (fits l.state c.revoking) (change_there c.phase t p)
      ∙ f;
  rest = ap (λ q. all_wait (change c.phase t p) (behind q)) at;
  distinct = ap is_distinct at;
  outside = λ x h.
      let away : elem x (t ∷ []) ≡ false = sym (ap (elem x) at) ∙ h in
      let apart : (x == t) ≡ false = ground arith in
      change_apart c.phase t x p apart ∙ i.outside x (ap (elem x) empty);
}

pub elem-append : (x t : ℕ) (qs : List ℕ) → elem x (qs ++ (t ∷ [])) ≡ (elem x qs || (x == t))
elem-append x t [] = ground arith
elem-append x t (q ∷ qs) = ground (arith, elem-append x t qs)

distinct-append :
    (t : ℕ) (qs : List ℕ)
    → elem t qs ≡ false
    → is_distinct qs ≡ true
    → is_distinct (qs ++ (t ∷ [])) ≡ true
distinct-append t [] h d = refl
distinct-append t (q ∷ qs) h d =
    let apart : (q == t) ≡ false = ground arith in
    ground (arith, distinct-append t qs, elem-append q t qs, apart)

all_wait-append :
    (ph : ℕ → Phase) (t : ℕ) (qs : List ℕ)
    → all_wait ph qs ≡ true
    → is_waiting (ph t) ≡ true
    → all_wait ph (qs ++ (t ∷ [])) ≡ true
all_wait-append ph t [] h k = ground arith
all_wait-append ph t (q ∷ qs) h k = ground (arith, all_wait-append ph t qs)

-- One more thread behind the others.
behind_step :
    (c : Cache) (t q : ℕ) (qs : List ℕ)
    → Inv c
    → c.lock.queue ≡ q ∷ qs
    → elem t (q ∷ qs) ≡ false
    → Inv (turned c t (record c.lock { queue = (q ∷ qs) ++ (t ∷ []) }, waits))
behind_step c t q qs i at out =
    let ph = change c.phase t (wait false) in
    let apart : (q == t) ≡ false = ground arith in
    let away : elem t qs ≡ false = ground arith in
    let w : all_wait c.phase qs ≡ true = sym (ap (λ l. all_wait c.phase (behind l)) at) ∙ i.rest in
    record {
      front =
          ap (fits c.lock.state c.revoking) (change_apart c.phase t q (wait false) apart)
          ∙ sym (ap (front_fits c.lock.state c.revoking c.phase) at)
          ∙ i.front;
      rest =
          all_wait-append ph t qs (all_wait-change c.phase t (wait false) qs away ∙ w)
            (ap is_waiting (change_there c.phase t (wait false)));
      distinct = distinct-append t (q ∷ qs) out (sym (ap is_distinct at) ∙ i.distinct);
      outside = λ x h.
          let none_of : (elem x (q ∷ qs) || (x == t)) ≡ false =
            sym (elem-append x t (q ∷ qs)) ∙ h in
          let x_out : elem x (q ∷ qs) ≡ false = ground arith in
          let x_t : (x == t) ≡ false = ground arith in
          change_apart c.phase t x (wait false) x_t ∙ i.outside x (ap (elem x) at ∙ x_out);
    }

-- A turn that leaves the queue as it is, and the state as the thread needs it.
abbrev pub Turns : CachedLock → Bool → CachedLock × Turn → Type 0
Turns l r k = (k.0.queue ≡ l.queue) × (fits k.0.state r (phase_of k.1) ≡ true)

on_empty-Turns :
    (s : State) (r : Bool) (l : CachedLock)
    → l.state ≡ s
    → fits_empty s r ≡ true
    → Turns l r (on_empty s l)
unfolding on_empty
on_empty-Turns no_lock false l e f = (refl, refl)
on_empty-Turns no_lock true l e f = cc f
on_empty-Turns free false l e f = (refl, refl)
on_empty-Turns free true l e f = cc f
on_empty-Turns releasing true l e f = (refl, ap (λ s. fits s true (first_wait false)) e)
on_empty-Turns releasing false l e f = cc f
on_empty-Turns acquiring r l e f = cc f
on_empty-Turns locked r l e f = cc f

pub acquire_with-Inv :
    (c : Cache) (t : ℕ) (qs : List ℕ)
    → c.lock.queue ≡ qs
    → Inv c
    → c.phase t ≡ idle
    → Inv (turned c t (acquire_with qs c.lock t))
unfolding acquire_with
acquire_with-Inv c t [] at i p =
    let l1 : CachedLock = record c.lock { queue = t ∷ [] } in
    let f : fits_empty c.lock.state c.revoking ≡ true =
      sym (ap (front_fits c.lock.state c.revoking c.phase) at) ∙ i.front in
    let (q, g) = on_empty-Turns c.lock.state c.revoking l1 refl f in
    let k = on_empty c.lock.state l1 in alone_step c t k.0 (phase_of k.1) i at q g
acquire_with-Inv c t (q ∷ qs) at i p = behind_step c t q qs i at (idle_outside c t (q ∷ qs) at i p)

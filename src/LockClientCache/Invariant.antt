-- ===== src/LockClientCache/Invariant.antt =====
-- What the state of a lock says of the threads in its queue.
use lab_cse.Prelude.{
  ℕ, ◌≡◌, refl, ap, sym, subst, ◌∙◌, Bool, true, false, ◌&&◌, ◌||◌, not, List, [], ◌∷◌, arith, ◌==◌,
  if◌then◌else◌, Bool-cases, inl, inr, ==_refl,
}
use lab_cse.LockClientCache.{State, no_lock, acquiring, free, releasing, locked, CachedLock}
use lab_cse.LockClientCache.Threads.{
  Phase, idle, calling, holding, giving_back, lost, first_wait, wait, retry_wait, Cache, new_cache,
  change,
}

abbrev pub elem : ℕ → List ℕ → Bool
elem t [] = false
elem t (q ∷ qs) = (t == q) || elem t qs

abbrev pub is_distinct : List ℕ → Bool
is_distinct [] = true
is_distinct (q ∷ qs) = not (elem q qs) && is_distinct qs

-- The thread at the front of the queue, for the state and whether `revoke_handler` calls.
abbrev pub fits : State → Bool → Phase → Bool
fits no_lock false (first_wait b) = b
fits no_lock false (wait b) = b
fits acquiring false calling = true
fits acquiring false (retry_wait b) = true
fits locked false holding = true
fits locked false (wait b) = b
fits releasing false giving_back = true
fits releasing true (first_wait b) = not b
fits _ _ _ = false

abbrev pub fits_empty : State → Bool → Bool
fits_empty no_lock r = not r
fits_empty free r = not r
fits_empty releasing r = r
fits_empty acquiring r = false
fits_empty locked r = false

abbrev pub front_fits : State → Bool → (ℕ → Phase) → List ℕ → Bool
front_fits s r ph [] = fits_empty s r
front_fits s r ph (q ∷ qs) = fits s r (ph q)

abbrev pub is_waiting : Phase → Bool
is_waiting (wait b) = not b
is_waiting _ = false

abbrev pub all_wait : (ℕ → Phase) → List ℕ → Bool
all_wait ph [] = true
all_wait ph (q ∷ qs) = is_waiting (ph q) && all_wait ph qs

abbrev pub behind : List ℕ → List ℕ
behind [] = []
behind (q ∷ qs) = qs

pub record Inv (c : Cache) : Type 0 where
  pub front : front_fits c.lock.state c.revoking c.phase c.lock.queue ≡ true
  pub rest : all_wait c.phase (behind c.lock.queue) ≡ true
  pub distinct : is_distinct c.lock.queue ≡ true
  pub outside : (t : ℕ) → elem t c.lock.queue ≡ false → c.phase t ≡ idle

pub new_cache-Inv : Inv new_cache
new_cache-Inv = record { front = refl; rest = refl; distinct = refl; outside = λ t h. refl }

pub change_there : (ph : ℕ → Phase) (t : ℕ) (p : Phase) → change ph t p t ≡ p
change_there ph t p = ap (λ b. if b then p else ph t) (==_refl t)

pub change_apart :
    (ph : ℕ → Phase) (t i : ℕ) (p : Phase) → (i == t) ≡ false → change ph t p i ≡ ph i
change_apart ph t i p e = ap (λ b. if b then p else ph i) e

pub apart_elem : (t q : ℕ) (qs : List ℕ) → elem t qs ≡ false → elem q qs ≡ true → (q == t) ≡ false
apart_elem t q [] h k = cc
apart_elem t q (x ∷ qs) h k = ground (arith, apart_elem t q qs)

-- Who is not in the queue changes nothing for those in it.
pub all_wait-change :
    (ph : ℕ → Phase) (t : ℕ) (p : Phase) (qs : List ℕ)
    → elem t qs ≡ false
    → all_wait (change ph t p) qs ≡ all_wait ph qs
all_wait-change ph t p [] h = refl
all_wait-change ph t p (q ∷ qs) h =
    let apart : (q == t) ≡ false = ground arith in
    let tail : elem t qs ≡ false = ground arith in
    ap (λ x. is_waiting x && all_wait (change ph t p) qs) (change_apart ph t q p apart)
    ∙ ap (λ b. is_waiting (ph q) && b) (all_wait-change ph t p qs tail)

pub waiting_elem :
    (ph : ℕ → Phase) (t : ℕ) (qs : List ℕ)
    → all_wait ph qs ≡ true
    → elem t qs ≡ true
    → is_waiting (ph t) ≡ true
waiting_elem ph t [] h k = cc
waiting_elem ph t (q ∷ qs) h k = elim (Bool-cases (t == q)) [
  | inl e ↦ let z : q ≡ t = ground arith in subst (λ i. is_waiting (ph i) ≡ true) z (ground arith)
  | inr e ↦ waiting_elem ph t qs (ground arith) (ground arith)
]

abbrev acts : Phase → Bool
acts idle = false
acts (wait b) = b
acts _ = true

idle_acts : (p : Phase) → p ≡ idle → acts p ≡ false
idle_acts p e = ap acts e

waiting_acts : (p : Phase) → is_waiting p ≡ true → acts p ≡ false
waiting_acts (wait b) e = ground arith
waiting_acts idle e = cc
waiting_acts calling e = cc
waiting_acts holding e = cc
waiting_acts giving_back e = cc
waiting_acts lost e = cc
waiting_acts (first_wait b) e = cc
waiting_acts (retry_wait b) e = cc

front_of :
    (c : Cache) (t : ℕ) (qs : List ℕ)
    → c.lock.queue ≡ qs
    → Inv c
    → acts (c.phase t) ≡ true
    → (rest : List ℕ) × (c.lock.queue ≡ t ∷ rest)
front_of c t [] e i a =
    let out : elem t c.lock.queue ≡ false = ap (elem t) e in
    absurd (cc (idle_acts (c.phase t) (i.outside t out), a))
front_of c t (q ∷ qs) e i a = elim (Bool-cases (t == q)) [
  | inl same ↦ let z : q ≡ t = ground arith in (qs, e ∙ ap (λ x. x ∷ qs) z)
  | inr apart ↦ elim (Bool-cases (elem t qs)) [
    | inl inside ↦
        let w : all_wait c.phase qs ≡ true =
          sym (ap (λ l. all_wait c.phase (behind l)) e) ∙ i.rest in
        absurd (cc (waiting_acts (c.phase t) (waiting_elem c.phase t qs w inside), a))
    | inr away ↦
        let out : elem t c.lock.queue ≡ false = ap (elem t) e ∙ ground arith in
        absurd (cc (idle_acts (c.phase t) (i.outside t out), a))
  ]
]

-- A thread that is up to something is at the front of the queue.
pub acts-front :
    (c : Cache) (t : ℕ) (p : Phase)
    → Inv c
    → c.phase t ≡ p
    → acts p ≡ true
    → (rest : List ℕ) × (c.lock.queue ≡ t ∷ rest) × (fits c.lock.state c.revoking p ≡ true)
acts-front c t p i e a =
    let (rest, at) = front_of c t c.lock.queue refl i (ap acts e ∙ a) in
    let f : front_fits c.lock.state c.revoking c.phase (t ∷ rest) ≡ true =
      sym (ap (front_fits c.lock.state c.revoking c.phase) at) ∙ i.front in
    (rest, at, sym (ap (fits c.lock.state c.revoking) e) ∙ f)

-- The front of the queue goes on, and the queue stays as it is.
pub front_step :
    (c : Cache) (t : ℕ) (rest : List ℕ) (l : CachedLock) (r : Bool) (p : Phase)
    → Inv c
    → c.lock.queue ≡ t ∷ rest
    → l.queue ≡ c.lock.queue
    → fits l.state r p ≡ true
    → Inv (record { lock = l; phase = change c.phase t p; revoking = r })
front_step c t rest l r p i at same f =
    let at_l : l.queue ≡ t ∷ rest = same ∙ at in
    let d : is_distinct (t ∷ rest) ≡ true = sym (ap is_distinct at) ∙ i.distinct in
    let alone : elem t rest ≡ false = ground arith in
    let w : all_wait c.phase rest ≡ true =
      sym (ap (λ q. all_wait c.phase (behind q)) at) ∙ i.rest in
    record {
      front =
          ap (front_fits l.state r (change c.phase t p)) at_l
          ∙ ap (fits l.state r) (change_there c.phase t p)
          ∙ f;
      rest =
          ap (λ q. all_wait (change c.phase t p) (behind q)) at_l
          ∙ all_wait-change c.phase t p rest alone
          ∙ w;
      distinct = ap is_distinct at_l ∙ d;
      outside = λ x h.
          let away : elem x (t ∷ rest) ≡ false = sym (ap (elem x) at_l) ∙ h in
          let apart : (x == t) ≡ false = ground arith in
          change_apart c.phase t x p apart ∙ i.outside x (ap (elem x) at ∙ away);
    }

-- ===== src/LockClientCache/Passing.antt =====
-- Threads that release the lock, and the two handlers.
use lab_cse.Prelude.{
  ℕ, ◌≡◌, refl, ap, sym, ◌∙◌, Bool, true, false, Option, none, some, List, [], ◌∷◌, arith, ◌==◌,
  if◌then◌else◌, Bool-cases, inl, inr, ◌⊎◌,
}
use lab_cse.LockClientCache.{
  State, no_lock, acquiring, free, releasing, locked, CachedLock, pass_on, Released, gives_back,
  ended, release, after_release,
}
use lab_cse.LockClientCache.Threads.{
  Phase, idle, calling, holding, giving_back, lost, first_wait, wait, retry_wait, wake, Cache,
  change, given,
}
use lab_cse.LockClientCache.Invariant.{
  elem, is_distinct, fits, fits_empty, is_waiting, all_wait, behind, Inv, change_there,
  change_apart, all_wait-change, acts-front, front_step,
}

-- The front of the queue is idle again, and the next one is signalled.
pop_step :
    (c : Cache) (t : ℕ) (rest : List ℕ) (l : CachedLock)
    → Inv c
    → c.revoking ≡ false
    → c.lock.queue ≡ t ∷ rest
    → fits_empty l.state false ≡ true
    → fits (if l.revoke_later then l.state else locked) false (wait true) ≡ true
    → (r : CachedLock × Option ℕ) × (pass_on (t ∷ rest) l ≡ some r) × Inv (given c t r)
unfolding pass_on
pop_step c t [] l i quiet at e f = (
  (record l { queue = []; revoke_later = false }, none),
  refl,
  record {
    front = ap (fits_empty l.state) quiet ∙ e;
    rest = refl;
    distinct = refl;
    outside = λ x h. elim (Bool-cases (x == t)) [
      | inl same ↦ ap (λ b. if b then idle else c.phase x) same
      | inr apart ↦
          let away : elem x (t ∷ []) ≡ false = ground arith in
          change_apart c.phase t x idle apart ∙ i.outside x (ap (elem x) at ∙ away)
    ];
  },
)
pop_step c t (q ∷ qs) l i quiet at e f =
    let s : State = if l.revoke_later then l.state else locked in
    let ph = change c.phase t idle in
    let d : is_distinct (t ∷ q ∷ qs) ≡ true = sym (ap is_distinct at) ∙ i.distinct in
    let w : all_wait c.phase (q ∷ qs) ≡ true =
      sym (ap (λ x. all_wait c.phase (behind x)) at) ∙ i.rest in
    let q_t : (q == t) ≡ false = ground arith in
    let t_out : elem t qs ≡ false = ground arith in
    let q_out : elem q qs ≡ false = ground arith in
    let woken_up : wake (ph q) ≡ wait true =
      wake_waiting (ph q) (ap is_waiting (change_apart c.phase t q idle q_t) ∙ ground arith) in
    (
      (record l { queue = q ∷ qs; state = s; revoke_later = false }, some q),
      refl,
      record {
        front =
            ap (λ b. fits s b (change ph q (wake (ph q)) q)) quiet
            ∙ ap (fits s false) (change_there ph q (wake (ph q)) ∙ woken_up)
            ∙ f;
        rest =
            all_wait-change ph q (wake (ph q)) qs q_out
            ∙ all_wait-change c.phase t idle qs t_out
            ∙ ground arith;
        distinct = ground arith;
        outside = λ x h.
            let x_q : (x == q) ≡ false = ground arith in
            change_apart ph q x (wake (ph q)) x_q ∙ elim (Bool-cases (x == t)) [
              | inl same ↦ ap (λ b. if b then idle else c.phase x) same
              | inr apart ↦
                  let away : elem x (t ∷ q ∷ qs) ≡ false = ground arith in
                  change_apart c.phase t x idle apart ∙ i.outside x (ap (elem x) at ∙ away)
            ];
      },
    )
  where
    wake_waiting : (p : Phase) → is_waiting p ≡ true → wake p ≡ wait true
    wake_waiting (wait b) e = refl
    wake_waiting idle e = cc e
    wake_waiting calling e = cc e
    wake_waiting holding e = cc e
    wake_waiting giving_back e = cc e
    wake_waiting lost e = cc e
    wake_waiting (first_wait b) e = cc e
    wake_waiting (retry_wait b) e = cc e

pub holding_state : (s : State) (r : Bool) → fits s r holding ≡ true → (s ≡ locked) × (r ≡ false)
holding_state no_lock false f = cc f
holding_state no_lock true f = cc f
holding_state acquiring false f = cc f
holding_state acquiring true f = cc f
holding_state free false f = cc f
holding_state free true f = cc f
holding_state releasing false f = cc f
holding_state releasing true f = cc f
holding_state locked false f = (refl, refl)
holding_state locked true f = cc f

pub giving_back_state :
    (s : State) (r : Bool) → fits s r giving_back ≡ true → (s ≡ releasing) × (r ≡ false)
giving_back_state no_lock false f = cc f
giving_back_state no_lock true f = cc f
giving_back_state acquiring false f = cc f
giving_back_state acquiring true f = cc f
giving_back_state free false f = cc f
giving_back_state free true f = cc f
giving_back_state releasing false f = (refl, refl)
giving_back_state releasing true f = cc f
giving_back_state locked false f = cc f
giving_back_state locked true f = cc f

-- A `release` by who holds the lock calls the server, or ends.
pub release_parts :
    (c : Cache) (t : ℕ)
    → Inv c
    → c.phase t ≡ holding
    → ((release c.lock ≡ gives_back (record c.lock { state = releasing }))
        × Inv (record c {
          lock = record c.lock { state = releasing };
          phase = change c.phase t giving_back;
        }))
      ⊎ ((r : CachedLock × Option ℕ) × (release c.lock ≡ ended (some r)) × Inv (given c t r))
unfolding release
release_parts c t i p =
    let (rest, at, f) = acts-front c t holding i p refl in
    let (s, quiet) = holding_state c.lock.state c.revoking f in
    let back : Released = gives_back (record c.lock { state = releasing }) in
    let l : CachedLock = record c.lock { state = free } in
    let end : Released = ended (pass_on c.lock.queue l) in
    elim (Bool-cases c.lock.revoke_later) [
      | inl e ↦ inl (
        ap (λ b. if b then back else end) e,
        front_step c t rest (record c.lock { state = releasing }) c.revoking giving_back i at refl
            (ap (λ b. fits releasing b giving_back) quiet),
      )
      | inr e ↦
          let (r, done, k) =
            pop_step c t rest l i quiet at refl
              (ap (λ b. fits (if b then free else locked) false (wait true)) e) in
          inr (
            r,
            ap (λ b. if b then back else end) e
                ∙ ap (λ q. ended (pass_on q l)) at
                ∙ ap (λ x. ended x) done,
            k,
          )
    ]

-- The end of a `release` that called the server.
pub after_release_parts :
    (c : Cache) (t : ℕ)
    → Inv c
    → c.phase t ≡ giving_back
    → (r : CachedLock × Option ℕ) × (after_release c.lock ≡ some r) × Inv (given c t r)
unfolding after_release
after_release_parts c t i p =
    let (rest, at, f) = acts-front c t giving_back i p refl in
    let (s, quiet) = giving_back_state c.lock.state c.revoking f in
    let l : CachedLock = record c.lock { state = no_lock } in
    let (r, done, k) = pop_step c t rest l i quiet at refl (either l.revoke_later) in
    (r, ap (λ q. pass_on q l) at ∙ done, k)
  where
    either : (b : Bool) → fits (if b then no_lock else locked) false (wait true) ≡ true
    either true = refl
    either false = refl

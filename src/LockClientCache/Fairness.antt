-- ===== src/LockClientCache/Fairness.antt =====
-- What each step of a client keeps of its relation to the owner of the lock.
use lab_cse.Prelude.{
  ℕ, ◌≡◌, refl, ap, sym, subst, ◌∙◌, Bool, true, false, not, Option, none, some, [], if◌then◌else◌,
  Bool-cases, inl, inr,
}
use lab_cse.Prelude.Text.{Text, is_empty}
use lab_cse.LockServerCache.{Status}
use lab_cse.LockServerCache.History.{is_ok}
use lab_cse.LockClientCache.{
  State, no_lock, acquiring, free, releasing, locked, after_call, after_revoke,
}
use lab_cse.LockClientCache.Threads.{
  Cache, new_cache, given, turned, signal, Act, answered, gave_back, revoke_done, Step, answer,
  give_back, end_revoke,
}
use lab_cse.LockClientCache.Invariant.{Inv, new_cache-Inv}
use lab_cse.LockClientCache.History.{Step-Inv}
use lab_cse.LockClientCache.Calls.{sound, has_lock, turn-sound, turn-has_lock}
use lab_cse.LockClientCache.Gentle.{later, IsLater}
use lab_cse.LockClientCache.Moves.{is_local, Step-Moves, after_call_state, after_release_state}

-- A client, its answer on the way and whether its release was served, for the owner of the lock.
pub record Fair (own c : Text) (k : Cache) (p : Option Status) (g : Bool) : Type 0 where
  pub inv : Inv k
  pub calls_late : IsLater k
  pub sound_calls : sound k.lock.state p g ≡ true
  pub owns : has_lock k.lock.state p g ≡ true → (own ≡ c) × (is_empty c ≡ false)

pub new-Fair : (c : Text) → Fair [] c new_cache none false
new-Fair c = record { inv = new_cache-Inv; calls_late = refl; sound_calls = refl; owns = λ h. cc h }

pub local-Fair :
    (own c : Text) (k d : Cache) (p : Option Status) (g : Bool) (a : Act)
    → Step k a d
    → is_local a ≡ true
    → Fair own c k p g
    → Fair own c d p g
local-Fair own c k d p g a s h f =
    let m = Step-Moves f.inv s h in
    record {
      inv = Step-Inv s f.inv;
      calls_late = m.later_too f.calls_late;
      sound_calls = turn-sound k.lock.state d.lock.state p g m.turn f.sound_calls;
      owns = λ e. f.owns (turn-has_lock k.lock.state d.lock.state p g m.turn f.sound_calls e);
    }

-- Where nothing comes back from the server, and nobody releases.
sound_idle :
    (s : State) (st : Status) (g : Bool)
    → sound s (some st) g ≡ true
    → (s ≡ acquiring) × (g ≡ false)
sound_idle acquiring st true h = cc h
sound_idle acquiring st false h = (refl, refl)
sound_idle no_lock st g h = cc h
sound_idle free st g h = cc h
sound_idle releasing st g h = cc h
sound_idle locked st g h = cc h

pub answered-Fair :
    (own c : Text) (k : Cache) (t : ℕ) (st : Status) (d : Cache) (g : Bool)
    → Step k (answered t st) d
    → Fair own c k (some st) g
    → Fair own c d none g
answered-Fair own c k t st d g (answer _ _ e) f =
    let s : Step k (answered t st) (turned k t (after_call st k.lock)) = answer t st e in
    let (at_call, quiet) = sound_idle k.lock.state st g f.sound_calls in
    let after : (after_call st k.lock).0.state ≡ (if is_ok st then locked else acquiring) =
      after_call_state st k.lock at_call in
    elim (Bool-cases (is_ok st)) [
      | inl y ↦
          let got : (after_call st k.lock).0.state ≡ locked =
            after ∙ ap (λ b. if b then locked else acquiring) y in
          record {
            inv = Step-Inv s f.inv;
            calls_late = ap (λ x. later x k.revoking (after_call st k.lock).0.revoke_later) got;
            sound_calls = ap (λ x. sound x none g) got ∙ ap not quiet;
            owns = λ _. f.owns (ap (λ x. has_lock x (some st) g) at_call ∙ y);
          }
      | inr n ↦
          let still : (after_call st k.lock).0.state ≡ acquiring =
            after ∙ ap (λ b. if b then locked else acquiring) n in
          record {
            inv = Step-Inv s f.inv;
            calls_late = ap (λ x. later x k.revoking (after_call st k.lock).0.revoke_later) still;
            sound_calls = ap (λ x. sound x none g) still ∙ ap not quiet;
            owns = λ h. absurd (cc (h, ap (λ x. has_lock x none g) still));
          }
    ]

gave_lem : (own c : Text) (d : Cache) → d.lock.state ≡ no_lock → Inv d → Fair own c d none false
gave_lem own c d e i = record {
  inv = i;
  calls_late = ap (λ x. later x d.revoking d.lock.revoke_later) e;
  sound_calls = ap (λ x. sound x none false) e;
  owns = λ h. absurd (cc (h, ap (λ x. has_lock x none false) e));
}

no_answer : (s : State) (p : Option Status) → sound s p true ≡ true → p ≡ none
no_answer s none h = refl
no_answer acquiring (some st) h = cc h
no_answer no_lock (some st) h = cc h
no_answer free (some st) h = cc h
no_answer releasing (some st) h = cc h
no_answer locked (some st) h = cc h

pub thread_gave-Fair :
    (own c : Text) (k : Cache) (t : ℕ) (d : Cache) (p : Option Status)
    → Step k (gave_back t) d
    → Fair own c k p true
    → Fair own c d p false
thread_gave-Fair own c k t d p (give_back _ r e h) f =
    let (_, gone) = after_release_state k t r f.inv f.calls_late e h in
    subst (λ q. Fair own c (given k t r) q false) (sym (no_answer k.lock.state p f.sound_calls))
      (gave_lem own c (given k t r) gone (Step-Inv {a = gave_back t} (give_back t r e h) f.inv))

pub handler_gave-Fair :
    (own c : Text) (k d : Cache) (p : Option Status)
    → Step k revoke_done d
    → Fair own c k p true
    → Fair own c d p false
unfolding after_revoke
handler_gave-Fair own c k d p (end_revoke l s on e) f =
    let gone : l.state ≡ no_lock = ap (λ x. (x.0).state) (sym e) in
    let d1 : Cache = record { lock = l; phase = signal k.phase s; revoking = false } in
    subst (λ q. Fair own c d1 q false) (sym (no_answer k.lock.state p f.sound_calls))
      (gave_lem own c d1 gone (Step-Inv {a = revoke_done} (end_revoke l s on e) f.inv))

-- The owner changes, and the client has nothing to do with it.
pub bystander :
    (own new c : Text) (k : Cache) (p : Option Status) (g : Bool)
    → (has_lock k.lock.state p g ≡ false)
    → Fair own c k p g
    → Fair new c k p g
bystander own new c k p g h f = record {
  inv = f.inv;
  calls_late = f.calls_late;
  sound_calls = f.sound_calls;
  owns = λ e. absurd (cc (e, h));
}

-- Whose lock it is not, has none.
pub not_owner :
    (own c : Text) (k : Cache) (p : Option Status) (g : Bool)
    → Fair own c k p g
    → (own ≡ c → is_empty c ≡ false → ⊥)
    → has_lock k.lock.state p g ≡ false
not_owner own c k p g f differ = elim (Bool-cases (has_lock k.lock.state p g)) [
  | inl e ↦ absurd (differ (f.owns e).0 (f.owns e).1)
  | inr e ↦ e
]

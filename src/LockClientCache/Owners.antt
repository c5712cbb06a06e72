-- ===== src/LockClientCache/Owners.antt =====
-- The relation of all clients to the owner of the lock.
use lab_cse.Prelude.{
  ℕ, ◌≡◌, refl, ap, sym, subst, ◌∙◌, Bool, false, Option, List, [], ◌∷◌, arith, ◌==◌, if◌then◌else◌,
  Bool-cases, inl, inr, ==_refl,
}
use lab_cse.Prelude.Text.{Text, text_eq, text_eq_iff}
use lab_cse.LockServerCache.{Status}
use lab_cse.LockServerCache.History.{Event, asked, released, Reach, is_ok, owner}
use lab_cse.LockClientCache.Threads.{Cache}
use lab_cse.LockClientCache.Service.{Service, at}
use lab_cse.LockClientCache.Fairness.{Fair}

at_same : {A : Type 0} (f : Text → A) (c i : Text) → at f c (f c) i ≡ f i
at_same f c i = elim (Bool-cases (text_eq i c)) [
  | inl e ↦
      let z : c ≡ i = sym ((text_eq_iff i c).0 e) in ap (λ b. if b then f c else f i) e ∙ ap f z
  | inr e ↦ ap (λ b. if b then f c else f i) e
]

abbrev pub Each : Text → (Text → Cache) → (Text → Option Status) → (Text → Bool) → Type 0
Each own ks ps gs = (i : Text) → Fair own i (ks i) (ps i) (gs i)

pub Each-at :
    (own c : Text) (ks : Text → Cache) (ps : Text → Option Status) (gs : Text → Bool) (d : Cache)
    (p : Option Status) (g : Bool)
    → ((i : Text) → text_eq i c ≡ false → Fair own i (ks i) (ps i) (gs i))
    → Fair own c d p g
    → Each own (at ks c d) (at ps c p) (at gs c g)
Each-at own c ks ps gs d p g others mine i = elim (Bool-cases (text_eq i c)) [
  | inl e ↦
      let z : c ≡ i = sym ((text_eq_iff i c).0 e) in rw e (subst (λ j. Fair own j d p g) z mine)
  | inr e ↦ rw e (others i e)
]

module _ (own c : Text) (ks : Text → Cache) (ps : Text → Option Status) (gs : Text → Bool) where
  pub Each-client :
      (d : Cache)
      → Each own (at ks c d) (at ps c (ps c)) (at gs c (gs c))
      → Each own (at ks c d) ps gs
  Each-client d h i =
      subst (λ p. Fair own i (at ks c d i) p (gs i)) (at_same ps c i)
        (subst (λ g. Fair own i (at ks c d i) (at ps c (ps c) i) g) (at_same gs c i) (h i))

  pub Each-answer :
      (p : Option Status)
      → Each own (at ks c (ks c)) (at ps c p) (at gs c (gs c))
      → Each own ks (at ps c p) gs
  Each-answer p h i =
      subst (λ k. Fair own i k (at ps c p i) (gs i)) (at_same ks c i)
        (subst (λ g. Fair own i (at ks c (ks c) i) (at ps c p i) g) (at_same gs c i) (h i))

  pub Each-acquired :
      (d : Cache) (p : Option Status)
      → Each own (at ks c d) (at ps c p) (at gs c (gs c))
      → Each own (at ks c d) (at ps c p) gs
  Each-acquired d p h i =
      subst (λ g. Fair own i (at ks c d i) (at ps c p i) g) (at_same gs c i) (h i)

  pub Each-served :
      (g : Bool)
      → Each own (at ks c (ks c)) (at ps c (ps c)) (at gs c g)
      → Each own ks ps (at gs c g)
  Each-served g h i =
      subst (λ k. Fair own i k (ps i) (at gs c g i)) (at_same ks c i)
        (subst (λ p. Fair own i (at ks c (ks c) i) p (at gs c g i)) (at_same ps c i) (h i))

  pub Each-gave :
      (d : Cache) (g : Bool)
      → Each own (at ks c d) (at ps c (ps c)) (at gs c g)
      → Each own (at ks c d) ps (at gs c g)
  Each-gave d g h i = subst (λ p. Fair own i (at ks c d i) p (at gs c g i)) (at_same ps c i) (h i)

pub record IsFair (lid : ℕ) (v : Service) : Type 0 where
  pub reach : Reach v.events v.server
  pub each : Each (owner lid v.events) v.clients v.answers v.served

pub same_text : (i c : Text) → text_eq i c ≡ false → c ≡ i → ⊥
same_text i c e z = ground (arith, text_eq_iff i c, e, z)

pub owner_start : (lid : ℕ) → owner lid [] ≡ []
unfolding owner
owner_start lid = refl

pub owner-asked :
    (lid : ℕ) (c : Text) (st : Status) (es : List Event)
    → owner lid (asked lid c st ∷ es) ≡ (if is_ok st then c else owner lid es)
unfolding owner
owner-asked lid c st es = ground (arith, ==_refl lid)

pub owner-released :
    (lid : ℕ) (c : Text) (st : Status) (es : List Event)
    → owner lid (released lid c st ∷ es) ≡ (if is_ok st then [] else owner lid es)
unfolding owner
owner-released lid c st es = ground (arith, ==_refl lid)

pub owner-others :
    (lid l : ℕ) (c : Text) (st : Status) (es : List Event)
    → (l == lid) ≡ false
    → (owner lid (asked l c st ∷ es) ≡ owner lid es)
      × (owner lid (released l c st ∷ es) ≡ owner lid es)
unfolding owner
owner-others lid l c st es e = (ground (arith, e), ground (arith, e))

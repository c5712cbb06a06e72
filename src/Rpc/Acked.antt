-- ===== src/Rpc/Acked.antt =====
-- What a client claims to have a reply for.
use mathlib.Core.List.{append_assoc, append-nil}
use lab_cse.Prelude.{
  ℕ, ◌+◌, ◌<◌, ◌≤◌, ◌≡◌, refl, sym, subst, Bool, true, false, ◌||◌, List, [], ◌∷◌, ◌++◌, arith, ltb,
  leb, ◌==◌, Bool-cases, inl, inr, ltb→lt, leb→le, ltb_false→le,
}
use lab_cse.Rpc.XidWindow.{front, insert_xid, pop_before, compress_from, compress, update_xid_rep}

abbrev pub elem : ℕ → List ℕ → Bool
elem x [] = false
elem x (y ∷ ys) = (x == y) || elem x ys

abbrev AllFrom : ℕ → List ℕ → Type 0
AllFrom lo [] = Unit {0}
AllFrom lo (y ∷ ys) = (lo ≤ y) × AllFrom lo ys

abbrev IsSorted : List ℕ → Type 0
IsSorted [] = Unit {0}
IsSorted (y ∷ ys) = AllFrom y ys × IsSorted ys

abbrev AllIn : (ℕ → Type 0) → List ℕ → Type 0
AllIn P [] = Unit {0}
AllIn P (y ∷ ys) = P y × AllIn P ys

-- Every number up to `n` satisfies `P`.
abbrev pub UpTo : (ℕ → Type 0) → ℕ → Type 0
UpTo P n = (x : ℕ) → x ≤ n → P x

AllFrom-le : (lo lo' : ℕ) (xs : List ℕ) → lo' ≤ lo → AllFrom lo xs → AllFrom lo' xs
AllFrom-le lo lo' [] h a = tt
AllFrom-le lo lo' (x ∷ xs) h a = (omega arith, AllFrom-le lo lo' xs h a.1)

AllFrom-insert : (lo x : ℕ) (xs : List ℕ) → lo ≤ x → AllFrom lo xs → AllFrom lo (insert_xid xs x)
unfolding insert_xid
AllFrom-insert lo x [] h a = (h, tt)
AllFrom-insert lo x (y ∷ ys) h a = elim (Bool-cases (ltb x y)) [
  | inl e ↦ rw e (h, a)
  | inr e ↦ rw e (a.0, AllFrom-insert lo x ys h a.1)
]

insert-IsSorted : (x : ℕ) (xs : List ℕ) → IsSorted xs → IsSorted (insert_xid xs x)
unfolding insert_xid
insert-IsSorted x [] s = (tt, tt)
insert-IsSorted x (y ∷ ys) s = elim (Bool-cases (ltb x y)) [
  | inl e ↦
      rw e ((omega (arith, ltb→lt x y e), AllFrom-le y x ys (omega (arith, ltb→lt x y e)) s.0), s)
  | inr e ↦ rw e (AllFrom-insert y x ys (ltb_false→le x y e) s.0, insert-IsSorted x ys s.1)
]

insert-AllIn : (P : ℕ → Type 0) (x : ℕ) (xs : List ℕ) → P x → AllIn P xs → AllIn P (insert_xid xs x)
unfolding insert_xid
insert-AllIn P x [] p a = (p, tt)
insert-AllIn P x (y ∷ ys) p a = elim (Bool-cases (ltb x y)) [
  | inl e ↦ rw e (p, a)
  | inr e ↦ rw e (a.0, insert-AllIn P x ys p a.1)
]

abbrev is_some : List ℕ → Bool
is_some [] = false
is_some (x ∷ xs) = true

-- A window: not empty, sorted, all of it in `P`, and so is every number up to its front.
pub record IsWindow (P : ℕ → Type 0) (w : List ℕ) : Type 0 where
  pub present : is_some w ≡ true
  pub sorted : IsSorted w
  pub all : AllIn P w
  pub up_to : UpTo P (front w)

further : (P : ℕ → Type 0) (x r : ℕ) → P r → UpTo P x → r ≤ x + 1 → UpTo P r
further P x r p u le v h = elim (Bool-cases (leb v x)) [
  | inl e ↦ u v (leb→le v x e)
  | inr e ↦ let same : r ≡ v = ground arith in subst P same p
]

pub AllFrom-mid : (lo y : ℕ) (xs ys : List ℕ) → AllFrom lo (xs ++ (y ∷ ys)) → lo ≤ y
AllFrom-mid lo y [] ys a = a.0
AllFrom-mid lo y (x ∷ xs) ys a = AllFrom-mid lo y xs ys a.1

is_some-append : (xs ys : List ℕ) (y : ℕ) → is_some (xs ++ (y ∷ ys)) ≡ true
is_some-append [] ys y = refl
is_some-append (x ∷ xs) ys y = refl

-- The head of a window goes, where the next number is further back.
pub pop_head :
    (P : ℕ → Type 0) (x y : ℕ) (xs ys : List ℕ)
    → x + 1 ≡ y
    → IsWindow P (x ∷ (xs ++ (y ∷ ys)))
    → IsWindow P (xs ++ (y ∷ ys))
pop_head P x y [] ys e w = record {
  present = refl;
  sorted = w.sorted.1;
  all = w.all.1;
  up_to = further P x y w.all.1.0 w.up_to (omega arith);
}
pop_head P x y (z ∷ xs) ys e w = record {
  present = refl;
  sorted = w.sorted.1;
  all = w.all.1;
  up_to = further P x z w.all.1.0 w.up_to (omega (arith, AllFrom-mid z y xs ys w.sorted.1.0));
}

pub pop_before-IsWindow :
    (P : ℕ → Type 0) (before ys : List ℕ) (y : ℕ)
    → IsWindow P (before ++ (y ∷ ys))
    → IsWindow P (pop_before before y ++ (y ∷ ys))
unfolding pop_before
pop_before-IsWindow P [] ys y w = w
pop_before-IsWindow P (x ∷ xs) ys y w = elim (Bool-cases (x + 1 == y)) [
  | inl e ↦
      let n : x + 1 ≡ y = ground arith in
      rw e (pop_before-IsWindow P xs ys y (pop_head P x y xs ys n w))
  | inr e ↦ rw e w
]

compress_from-IsWindow :
    (P : ℕ → Type 0) (before rest : List ℕ)
    → IsWindow P (before ++ rest)
    → IsWindow P (compress_from before rest)
unfolding compress_from
compress_from-IsWindow P before [] w = subst (IsWindow P) (append-nil before) w
compress_from-IsWindow P before (y ∷ ys) w =
    compress_from-IsWindow P (pop_before before y ++ (y ∷ [])) ys (
      subst (IsWindow P) (sym (append_assoc (pop_before before y) (y ∷ []) ys))
        (pop_before-IsWindow P before ys y w))

compress-IsWindow : (P : ℕ → Type 0) (w : List ℕ) → IsWindow P w → IsWindow P (compress w)
unfolding compress
compress-IsWindow P [] w = w
compress-IsWindow P (x ∷ xs) w = compress_from-IsWindow P (x ∷ []) xs w

pub no_window : {P : ℕ → Type 0} → IsWindow P [] → ⊥
no_window w = cc w.present

pub above : (x n : ℕ) → leb x n ≡ false → n < x
above x n e = ground arith

pub insert-IsWindow :
    (P : ℕ → Type 0) (w : List ℕ) (x : ℕ)
    → front w < x
    → P x
    → IsWindow P w
    → IsWindow P (insert_xid w x)
unfolding insert_xid
insert-IsWindow P [] x h p w = absurd (no_window w)
insert-IsWindow P (y ∷ ys) x h p w = elim (Bool-cases (ltb x y)) [
  | inl e ↦ absurd (omega (arith, ltb→lt x y e))
  | inr e ↦ rw e (record {
    present = refl;
    sorted = (AllFrom-insert y x ys (omega arith) w.sorted.0, insert-IsSorted x ys w.sorted.1);
    all = (w.all.0, insert-AllIn P x ys p w.all.1);
    up_to = w.up_to;
  })
]

-- A report keeps the window one, whether it is new or not.
pub update-IsWindow :
    (P : ℕ → Type 0) (w : List ℕ) (x : ℕ) → P x → IsWindow P w → IsWindow P (update_xid_rep w x)
unfolding update_xid_rep
update-IsWindow P w x p i = elim (Bool-cases (leb x (front w))) [
  | inl e ↦ rw e i
  | inr e ↦
      rw e (compress-IsWindow P (insert_xid w x) (insert-IsWindow P w x (above x (front w) e) p i))
]

weaken-AllIn : (P Q : ℕ → Type 0) (w : List ℕ) → ((x : ℕ) → P x → Q x) → AllIn P w → AllIn Q w
weaken-AllIn P Q [] f a = tt
weaken-AllIn P Q (x ∷ xs) f a = (f x a.0, weaken-AllIn P Q xs f a.1)

pub weaken-IsWindow :
    (P Q : ℕ → Type 0) (w : List ℕ) → ((x : ℕ) → P x → Q x) → IsWindow P w → IsWindow Q w
weaken-IsWindow P Q w f i = record {
  present = i.present;
  sorted = i.sorted;
  all = weaken-AllIn P Q w f i.all;
  up_to = λ x h. f x (i.up_to x h);
}

pub IsWindow-front : (P : ℕ → Type 0) (w : List ℕ) → IsWindow P w → UpTo P (front w)
IsWindow-front P w i = i.up_to

pub new-IsWindow : (P : ℕ → Type 0) → P 0 → IsWindow P (0 ∷ [])
new-IsWindow P p = record {
  present = refl;
  sorted = (tt, tt);
  all = (p, tt);
  up_to = λ x h. let e : 0 ≡ x = omega arith in subst P e p;
}

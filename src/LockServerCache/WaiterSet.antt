-- ===== src/LockServerCache/WaiterSet.antt =====
-- `std::set<std::string>`: a list in rising order with no duplicates.
use lab_cse.Prelude.{
  ◌≡◌, refl, Bool, true, false, not, ◌&&◌, ◌||◌, Option, none, some, List, [], ◌∷◌, arith,
  if◌then◌else◌, Bool-cases, inl, inr,
}
use lab_cse.Prelude.Text.{
  Text, text_eq, text_lt, text_eq_iff, text_lt_irrefl, text_lt_trans, text_lt_total,
}

abbrev pub Waiters : Type 0
Waiters = List Text

abbrev pub no_waiters : Waiters → Bool
no_waiters [] = true
no_waiters (x ∷ xs) = false

unfoldable pub insert : Text → Waiters → Waiters
insert x [] = x ∷ []
insert x (y ∷ ys) =
    if text_lt x y then x ∷ y ∷ ys else if text_eq y x then y ∷ ys else y ∷ insert x ys

unfoldable pub erase : Text → Waiters → Waiters
erase x [] = []
erase x (y ∷ ys) = if text_eq y x then ys else y ∷ erase x ys

-- `*begin()`
abbrev pub least : Waiters → Option Text
least [] = none
least (x ∷ xs) = some x

unfoldable pub has : Text → Waiters → Bool
has x [] = false
has x (y ∷ ys) = text_eq y x || has x ys

-- Rising from above `x`.
abbrev pub Above : Text → Waiters → Type 0
Above x [] = Unit {0}
Above x (y ∷ ys) = (text_lt x y ≡ true) × Above y ys

abbrev pub IsSorted : Waiters → Type 0
IsSorted [] = Unit {0}
IsSorted (x ∷ xs) = Above x xs

Above-mono : (x y : Text) (ys : Waiters) → text_lt x y ≡ true → Above y ys → Above x ys
Above-mono x y [] h a = tt
Above-mono x y (z ∷ zs) h a = (text_lt_trans x y z h a.0, a.1)

pub insert-Above :
    (x y : Text) (ys : Waiters) → text_lt y x ≡ true → Above y ys → Above y (insert x ys)
unfolding insert
insert-Above x y [] h a = (h, tt)
insert-Above x y (z ∷ zs) h a =
    ground (arith, insert-Above x z zs, text_lt_total x z, text_eq_iff z x)

pub insert-IsSorted : (x : Text) (ys : Waiters) → IsSorted ys → IsSorted (insert x ys)
unfolding insert
insert-IsSorted x [] a = tt
insert-IsSorted x (y ∷ ys) a =
    ground (arith, insert-Above x y ys, text_lt_total x y, text_eq_iff y x)

pub insert-some : (x : Text) (ys : Waiters) → no_waiters (insert x ys) ≡ false
unfolding insert
insert-some x [] = refl
insert-some x (y ∷ ys) = ground arith

pub has-insert : (x z : Text) (ys : Waiters) → has z (insert x ys) ≡ (text_eq x z || has z ys)
unfolding insert has
has-insert x z [] = refl
has-insert x z (y ∷ ys) = ground (arith, has-insert x z ys, text_eq_iff y x)

Above-not_has : (x : Text) (ys : Waiters) → Above x ys → has x ys ≡ false
unfolding has
Above-not_has x [] a = refl
Above-not_has x (y ∷ ys) a =
    ground
      (arith, Above-not_has x ys (Above-mono x y ys a.0 a.1), text_eq_iff y x, text_lt_irrefl x)

tail-IsSorted : (x : Text) (ys : Waiters) → Above x ys → IsSorted ys
tail-IsSorted x [] a = tt
tail-IsSorted x (y ∷ ys) a = a.1

erase-Above : (x y : Text) (ys : Waiters) → Above y ys → Above y (erase x ys)
unfolding erase
erase-Above x y [] a = tt
erase-Above x y (z ∷ zs) a = ground (arith, erase-Above x z zs, Above-mono y z zs)

pub erase-IsSorted : (x : Text) (ys : Waiters) → IsSorted ys → IsSorted (erase x ys)
unfolding erase
erase-IsSorted x [] a = tt
erase-IsSorted x (y ∷ ys) a = elim (Bool-cases (text_eq y x)) [
  | inl e ↦ rw e (tail-IsSorted y ys a)
  | inr e ↦ rw e (erase-Above x y ys a)
]

pub has-erase :
    (x z : Text) (ys : Waiters) → IsSorted ys → has z (erase x ys) ≡ (not (text_eq x z) && has z ys)
unfolding erase has
has-erase x z [] a = ground arith
has-erase x z (y ∷ ys) a = ground (
  arith,
  has-erase x z ys (tail-IsSorted y ys a),
  Above-not_has y ys a,
  text_eq_iff y x,
  text_eq_iff x z,
  text_eq_iff y z,
)

pub has-no_waiters : (x : Text) (ys : Waiters) → no_waiters ys ≡ true → has x ys ≡ false
unfolding has
has-no_waiters x [] h = refl
has-no_waiters x (y ∷ ys) h = cc

pub least-has : (x : Text) (ys : Waiters) → least ys ≡ some x → has x ys ≡ true
unfolding has
least-has x [] h = cc
least-has x (y ∷ ys) h = ground (arith, text_eq_iff y x)

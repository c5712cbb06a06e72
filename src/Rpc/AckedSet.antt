-- ===== src/Rpc/AckedSet.antt =====
-- `xid_rep_window_` against the set that it stands for.
use lab_cse.Prelude.{
  ℕ, ◌+◌, ◌<◌, ◌≤◌, ◌≡◌, refl, ap, sym, subst, ◌∙◌, Bool, ◌||◌, List, [], ◌∷◌, ◌++◌, arith, leb,
  ◌==◌, Bool-cases, inl, inr,
}
use mathlib.Core.List.{append_assoc, append-nil}
use lab_cse.Rpc.XidWindow.{front, insert_xid, pop_before, compress_from, compress, update_xid_rep}
use lab_cse.Rpc.Acked.{
  elem, IsWindow, AllFrom-mid, pop_head, pop_before-IsWindow, insert-IsWindow, update-IsWindow,
  new-IsWindow, no_window, above,
}

-- The window claims a reply for the number.
abbrev pub acked : List ℕ → ℕ → Bool
acked w x = leb x (front w) || elem x w

abbrev Any : ℕ → Type 0
Any x = Unit {0}

elem-insert : (w : List ℕ) (y x : ℕ) → elem x (insert_xid w y) ≡ (elem x w || (x == y))
unfolding insert_xid
elem-insert [] y x = ground arith
elem-insert (z ∷ w) y x = ground (arith, elem-insert w y x)

front-insert :
    (w : List ℕ) (y : ℕ) → IsWindow Any w → front w < y → front (insert_xid w y) ≡ front w
unfolding insert_xid
front-insert [] y i lt = absurd (no_window i)
front-insert (z ∷ w) y i lt = ground arith

acked-insert :
    (w : List ℕ) (y x : ℕ)
    → IsWindow Any w
    → front w < y
    → acked (insert_xid w y) x ≡ (acked w x || (x == y))
acked-insert w y x i lt = ground (arith, elem-insert w y x, front-insert w y i lt)

acked-pop :
    (x z : ℕ) (w : List ℕ) (v : ℕ) → x ≤ z → z ≤ x + 1 → acked (x ∷ (z ∷ w)) v ≡ acked (z ∷ w) v
acked-pop x z w v le near = ground arith

acked-pop_head :
    (x y : ℕ) (xs ys : List ℕ) (v : ℕ)
    → x + 1 ≡ y
    → IsWindow Any (x ∷ (xs ++ (y ∷ ys)))
    → acked (x ∷ (xs ++ (y ∷ ys))) v ≡ acked (xs ++ (y ∷ ys)) v
acked-pop_head x y [] ys v e i = acked-pop x y ys v (omega arith) (omega arith)
acked-pop_head x y (z ∷ xs) ys v e i =
    acked-pop x z (xs ++ (y ∷ ys)) v i.sorted.0.0
      (omega (arith, AllFrom-mid z y xs ys i.sorted.1.0))

acked-pop_before :
    (before ys : List ℕ) (y v : ℕ)
    → IsWindow Any (before ++ (y ∷ ys))
    → acked (pop_before before y ++ (y ∷ ys)) v ≡ acked (before ++ (y ∷ ys)) v
unfolding pop_before
acked-pop_before [] ys y v i = refl
acked-pop_before (x ∷ xs) ys y v i = elim (Bool-cases (x + 1 == y)) [
  | inl e ↦
      let n : x + 1 ≡ y = ground arith in
      let rest = acked-pop_before xs ys y v (pop_head Any x y xs ys n i) in
      rw e (rest ∙ sym (acked-pop_head x y xs ys v n i))
  | inr e ↦ rw e refl
]

acked-compress_from :
    (before rest : List ℕ) (v : ℕ)
    → IsWindow Any (before ++ rest)
    → acked (compress_from before rest) v ≡ acked (before ++ rest) v
unfolding compress_from
acked-compress_from before [] v i = ap (λ w. acked w v) (sym (append-nil before))
acked-compress_from before (y ∷ ys) v i =
    let b = pop_before before y in
    let flat : (b ++ (y ∷ [])) ++ ys ≡ b ++ (y ∷ ys) = append_assoc b (y ∷ []) ys in
    let k = subst (IsWindow Any) (sym flat) (pop_before-IsWindow Any before ys y i) in
    acked-compress_from (b ++ (y ∷ [])) ys v k
    ∙ ap (λ w. acked w v) flat
    ∙ acked-pop_before before ys y v i

acked-compress : (w : List ℕ) (v : ℕ) → IsWindow Any w → acked (compress w) v ≡ acked w v
unfolding compress
acked-compress [] v i = refl
acked-compress (x ∷ xs) v i = acked-compress_from (x ∷ []) xs v i

acked-update :
    (w : List ℕ) (y v : ℕ) → IsWindow Any w → acked (update_xid_rep w y) v ≡ (acked w v || (v == y))
unfolding update_xid_rep
acked-update w y v i = elim (Bool-cases (leb y (front w))) [
  | inl e ↦ rw e (ground arith)
  | inr e ↦
      let lt = above y (front w) e in
      rw e (
        acked-compress (insert_xid w y) v (insert-IsWindow Any w y lt tt i)
        ∙ acked-insert w y v i lt)
]

-- The window after replies to `xs`, the newest first.
unfoldable pub replied : List ℕ → List ℕ
replied [] = 0 ∷ []
replied (y ∷ ys) = update_xid_rep (replied ys) y

replied-IsWindow : (ys : List ℕ) → IsWindow Any (replied ys)
unfolding replied
replied-IsWindow [] = new-IsWindow Any tt
replied-IsWindow (y ∷ ys) = update-IsWindow Any (replied ys) y tt (replied-IsWindow ys)

-- After replies to any numbers, in any order and any number of times, what the window claims, all
-- numbers up to its front and those in it, are exactly 0 and these numbers.
pub acked-replied : (ys : List ℕ) (v : ℕ) → acked (replied ys) v ≡ ((v == 0) || elem v ys)
unfolding replied
acked-replied [] v = ground arith
acked-replied (y ∷ ys) v =
    acked-update (replied ys) y v (replied-IsWindow ys) ∙ ground (arith, acked-replied ys v)

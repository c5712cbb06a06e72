-- ===== src/Handles/Deletion.antt =====
-- What `delete_handle` leaves for the users of the other handles.
use lab_cse.Prelude.{
  ℕ, suc, ◌<◌, ◌≡◌, refl, ap, sym, ◌∙◌, true, false, Option, none, some, List, [], ◌∷◌, arith, ◌==◌,
  if◌then◌else◌, Bool-cases, inl, inr,
}
use lab_cse.Handles.{Hinfo, HandleMgr, set, store, drop_or_mark, delete_at, delete_handle}
use lab_cse.Handles.Counts.{count, without, Inv, set_there, set_apart, same_number, store-Inv}

-- The outcome is a manager with the invariant for these users.
abbrev pub Kept : List ℕ → Option HandleMgr → Type 0
Kept us r = (mg1 : HandleMgr) × (r ≡ some mg1) × Inv mg1 us

differ : (a b : ℕ) → (a == b) ≡ false → a ≡ b → ⊥
differ a b e h = ground (arith, e, h)

-- The handle of a name that nobody uses is freed.
erase-Inv :
    (mg : HandleMgr) (us : List ℕ) (m i : ℕ)
    → Inv mg us
    → mg.hmap m ≡ some i
    → count i us ≡ 0
    → Inv (record mg { hmap = set mg.hmap m none; heap = set mg.heap i none }) us
erase-Inv mg us m i k name zero_users = record {
  named = λ x j e. elim (Bool-cases (x == m)) [
    | inl here ↦ absurd (cc (set_there mg.hmap m x none here, e))
    | inr apart ↦
        let (h, there, m0, c) = k.named x j (sym (set_apart mg.hmap m x none apart) ∙ e) in
        elim (Bool-cases (j == i)) [
          | inl same ↦
              let z = same_number i j same in
              let (g, at_i, m1, _) = k.named m i name in
              let one : some g ≡ some h = sym at_i ∙ ap mg.heap z ∙ there in
              let x_m : x ≡ m = cc (one, m0, m1) in absurd (differ x m apart x_m)
          | inr other ↦ (h, set_apart mg.heap i j none other ∙ there, m0, c)
        ]
  ];
  used = λ j pos. elim (Bool-cases (j == i)) [
    | inl same ↦ let z = ap (λ x. count x us) (same_number i j same) in absurd (omega arith)
    | inr apart ↦
        let (h, there, name_j) = k.used j pos in
        (
          h,
          set_apart mg.heap i j none apart ∙ there,
          elim (Bool-cases (h.m == m)) [
            | inl same ↦
                let z = ap mg.hmap (same_number m h.m same) in
                let both : some i ≡ some j = sym name ∙ z ∙ name_j in
                let i_j : i ≡ j = cc both in absurd (differ j i apart (sym i_j))
            | inr other ↦ set_apart mg.hmap m h.m none other ∙ name_j
          ],
        )
  ];
  fresh = λ j le. elim (Bool-cases (j == i)) [
    | inl same ↦ set_there mg.heap i j none same
    | inr apart ↦ set_apart mg.heap i j none apart ∙ k.fresh j le
  ];
}

drop_or_mark-Kept :
    (mg : HandleMgr) (us : List ℕ) (m i : ℕ)
    → Inv mg us
    → mg.hmap m ≡ some i
    → Kept us (drop_or_mark mg m i (mg.heap i))
unfolding drop_or_mark
drop_or_mark-Kept mg us m i k name =
    let (h, at_i, m0, c) = k.named m i name in
    let gone : HandleMgr = record mg { hmap = set mg.hmap m none; heap = set mg.heap i none } in
    let marked : Hinfo = record h { del = true } in
    elim (Bool-cases (h.refcnt == 0)) [
      | inl e ↦ (
        gone,
        ap (drop_or_mark mg m i) at_i ∙ ap (λ b. some (if b then gone else store mg i marked)) e,
        erase-Inv mg us m i k name (ground arith),
      )
      | inr e ↦ (
        store mg i marked,
        ap (drop_or_mark mg m i) at_i ∙ ap (λ b. some (if b then gone else store mg i marked)) e,
        store-Inv mg us us i h marked k at_i (ap mg.hmap m0 ∙ name) refl c (λ j apart. refl),
      )
    ]

delete_at-Kept :
    (mg : HandleMgr) (us : List ℕ) (m : ℕ) (r : Option ℕ)
    → Inv mg us
    → mg.hmap m ≡ r
    → Kept us (delete_at mg m r)
unfolding delete_at
delete_at-Kept mg us m none k e = (mg, refl, k)
delete_at-Kept mg us m (some i) k e = drop_or_mark-Kept mg us m i k e

pub delete_handle-Kept :
    (mg : HandleMgr) (us : List ℕ) (m : ℕ) → Inv mg us → Kept us (delete_handle mg m)
unfolding delete_handle
delete_handle-Kept mg us m k = delete_at-Kept mg us m (mg.hmap m) k refl

pub count-without :
    (i : ℕ) (us : List ℕ) → 0 < count i us → count i us ≡ suc (count i (without i us))
count-without i [] h = absurd (omega arith)
count-without i (j ∷ us) h = elim (Bool-cases (i == j)) [
  | inl e ↦ rw e refl
  | inr e ↦ rw (e, e) (count-without i us (ground arith))
]

pub without_apart : (i j : ℕ) (us : List ℕ) → (j == i) ≡ false → count j (without i us) ≡ count j us
without_apart i j [] h = refl
without_apart i j (x ∷ us) h = ground (arith, without_apart i j us)

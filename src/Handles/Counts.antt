-- ===== src/Handles/Counts.antt =====
-- A handle that is in use is not freed, and its count is that of its users.
use lab_cse.Prelude.{
  ℕ, suc, ◌+◌, ◌<◌, ◌≤◌, ◌≡◌, refl, ap, sym, subst, ◌∙◌, true, false, Option, none, some, List, [],
  ◌∷◌, arith, ltb, ◌==◌, if◌then◌else◌, Bool-cases, inl, inr, ==_refl,
}
use lab_cse.Handles.{Hinfo, HandleMgr, new_mgr, set, store, new_hinfo, share, get_at, get_handle}

-- How many users have the handle.
abbrev pub count : ℕ → List ℕ → ℕ
count i [] = 0
count i (j ∷ js) = if i == j then suc (count i js) else count i js

abbrev pub without : ℕ → List ℕ → List ℕ
without i [] = []
without i (j ∷ js) = if i == j then js else j ∷ without i js

pub record Inv (mg : HandleMgr) (us : List ℕ) : Type 0 where
  pub named :
      (m i : ℕ)
      → mg.hmap m ≡ some i
      → (h : Hinfo) × (mg.heap i ≡ some h) × (h.m ≡ m) × (h.refcnt ≡ count i us)
  pub used : (i : ℕ) → 0 < count i us → (h : Hinfo) × (mg.heap i ≡ some h) × (mg.hmap h.m ≡ some i)
  pub fresh : (i : ℕ) → mg.next ≤ i → mg.heap i ≡ none

pub new_mgr-Inv : Inv new_mgr []
new_mgr-Inv = record {
  named = λ m i e. cc e;
  used = λ i h. absurd (omega arith);
  fresh = λ i h. refl;
}

pub set_there :
    {A : Type 0} (f : ℕ → Option A) (i j : ℕ) (a : Option A) → (j == i) ≡ true → set f i a j ≡ a
set_there f i j a e = ap (λ b. if b then a else f j) e

pub set_apart :
    {A : Type 0} (f : ℕ → Option A) (i j : ℕ) (a : Option A) → (j == i) ≡ false → set f i a j ≡ f j
set_apart f i j a e = ap (λ b. if b then a else f j) e

pub same_number : (i j : ℕ) → (j == i) ≡ true → i ≡ j
same_number i j e = ground arith

-- What stands at one address changes, and the number of its users with it.
pub store-Inv :
    (mg : HandleMgr) (us vs : List ℕ) (i : ℕ) (h g : Hinfo)
    → Inv mg us
    → mg.heap i ≡ some h
    → mg.hmap h.m ≡ some i
    → g.m ≡ h.m
    → g.refcnt ≡ count i vs
    → ((j : ℕ) → (j == i) ≡ false → count j vs ≡ count j us)
    → Inv (store mg i g) vs
store-Inv mg us vs i h g k at_i name m_same n other = record {
  named = λ m j e. elim (Bool-cases (j == i)) [
    | inl here ↦
        let z = same_number i j here in
        let (h0, there, m0, _) = k.named m j e in
        let same : some h ≡ some h0 = sym at_i ∙ ap mg.heap z ∙ there in
        let h_m : h.m ≡ m = cc (same, m0) in
        (g, set_there mg.heap i j (some g) here, m_same ∙ h_m, n ∙ ap (λ x. count x vs) z)
    | inr apart ↦
        let (h0, there, m0, c) = k.named m j e in
        (h0, set_apart mg.heap i j (some g) apart ∙ there, m0, c ∙ sym (other j apart))
  ];
  used = λ j pos. elim (Bool-cases (j == i)) [
    | inl here ↦
        let z = same_number i j here in
        (g, set_there mg.heap i j (some g) here, ap mg.hmap m_same ∙ name ∙ ap (λ x. some x) z)
    | inr apart ↦
        let (h0, there, m0) = k.used j (subst (λ x. 0 < x) (other j apart) pos) in
        (h0, set_apart mg.heap i j (some g) apart ∙ there, m0)
  ];
  fresh = λ j le. elim (Bool-cases (j == i)) [
    | inl here ↦
        let z = same_number i j here in
        let gone : mg.heap j ≡ none = k.fresh j le in absurd (cc (at_i, ap mg.heap z, gone))
    | inr apart ↦ set_apart mg.heap i j (some g) apart ∙ k.fresh j le
  ];
}

abbrev pub grown : Option ℕ → List ℕ → List ℕ
grown none us = us
grown (some i) us = i ∷ us

abbrev pub Got : HandleMgr → List ℕ → Option (HandleMgr × Option ℕ) → Type 0
Got mg us r = (mg1 : HandleMgr) × (i : Option ℕ) × (r ≡ some (mg1, i)) × Inv mg1 (grown i us)

pub count_self : (i : ℕ) (us : List ℕ) → count i (i ∷ us) ≡ suc (count i us)
count_self i us = ap (λ b. if b then suc (count i us) else count i us) (==_refl i)

count_apart : (i j : ℕ) (us : List ℕ) → (j == i) ≡ false → count j (i ∷ us) ≡ count j us
count_apart i j us e = ap (λ b. if b then suc (count j us) else count j us) e

share-Got :
    (mg : HandleMgr) (us : List ℕ) (m i : ℕ)
    → Inv mg us
    → mg.hmap m ≡ some i
    → Got mg us (share mg i (mg.heap i))
unfolding share
share-Got mg us m i k name =
    let (h, at_i, m0, c) = k.named m i name in
    let more : Hinfo = record h { refcnt = h.refcnt + 1 } in
    elim (Bool-cases h.del) [
      | inl e ↦ (
        mg,
        none,
        ap (share mg i) at_i
            ∙ ap (λ b. if b then some (mg, none) else some (store mg i more, some i)) e,
        k,
      )
      | inr e ↦ (
        store mg i more,
        some i,
        ap (share mg i) at_i
            ∙ ap (λ b. if b then some (mg, none) else some (store mg i more, some i)) e,
        store-Inv mg us (i ∷ us) i h more k at_i (ap mg.hmap m0 ∙ name) refl
            (omega (arith, c, count_self i us)) (λ j apart. count_apart i j us apart),
      )
    ]

pub unused : (mg : HandleMgr) (us : List ℕ) (i : ℕ) → Inv mg us → mg.heap i ≡ none → count i us ≡ 0
unused mg us i k gone = elim (Bool-cases (ltb 0 (count i us))) [
  | inl e ↦ let (h, there, _) = k.used i (ground arith) in absurd (cc (there, gone))
  | inr e ↦ ground arith
]

-- A new handle.
abbrev with_new : HandleMgr → ℕ → HandleMgr
with_new mg m = record {
  hmap = set mg.hmap m (some mg.next);
  heap = set mg.heap mg.next (some (new_hinfo m));
  next = mg.next + 1;
}

new-Inv :
    (mg : HandleMgr) (us : List ℕ) (m : ℕ)
    → Inv mg us
    → mg.hmap m ≡ none
    → Inv (with_new mg m) (mg.next ∷ us)
new-Inv mg us m k unknown =
    let n = mg.next in
    let free : mg.heap n ≡ none = k.fresh n (omega arith) in
    let zero_users = unused mg us n k free in
    let alone : 1 ≡ count n (n ∷ us) = omega (arith, count_self n us, zero_users) in
    record {
      named = λ x j e. elim (Bool-cases (x == m)) [
        | inl here ↦
            let found : some n ≡ some j = sym (set_there mg.hmap m x (some n) here) ∙ e in
            let z : n ≡ j = cc found in
            let w = same_number m x here in
            (
              new_hinfo m,
              ap (set mg.heap n (some (new_hinfo m))) (sym z)
                  ∙ set_there mg.heap n n (some (new_hinfo m)) (==_refl n),
              w,
              alone ∙ ap (λ y. count y (n ∷ us)) z,
            )
        | inr apart ↦
            let old = sym (set_apart mg.hmap m x (some n) apart) ∙ e in
            let (h, there, m0, c) = k.named x j old in
            elim (Bool-cases (j == n)) [
              | inl same ↦ let z = same_number n j same in absurd (cc (there, ap mg.heap z, free))
              | inr differ ↦ (
                h,
                set_apart mg.heap n j (some (new_hinfo m)) differ ∙ there,
                m0,
                c ∙ sym (count_apart n j us differ),
              )
            ]
      ];
      used = λ j pos. elim (Bool-cases (j == n)) [
        | inl same ↦
            let z = same_number n j same in
            (
              new_hinfo m,
              set_there mg.heap n j (some (new_hinfo m)) same,
              set_there mg.hmap m m (some n) (==_refl m) ∙ ap (λ y. some y) z,
            )
        | inr differ ↦
            let (h, there, name) = k.used j (subst (λ x. 0 < x) (count_apart n j us differ) pos) in
            (
              h,
              set_apart mg.heap n j (some (new_hinfo m)) differ ∙ there,
              elim (Bool-cases (h.m == m)) [
                | inl same ↦
                    let z = same_number m h.m same in absurd (cc (ap mg.hmap z, unknown, name))
                | inr other ↦ set_apart mg.hmap m h.m (some n) other ∙ name
              ],
            )
      ];
      fresh = λ j le. elim (Bool-cases (j == n)) [
        | inl same ↦ let z = same_number n j same in absurd (omega arith)
        | inr differ ↦ set_apart mg.heap n j (some (new_hinfo m)) differ ∙ k.fresh j (omega arith)
      ];
    }

get_at-Got :
    (mg : HandleMgr) (us : List ℕ) (m : ℕ) (r : Option ℕ)
    → Inv mg us
    → mg.hmap m ≡ r
    → Got mg us (get_at mg m r)
unfolding get_at
get_at-Got mg us m none k e = (with_new mg m, some mg.next, refl, new-Inv mg us m k e)
get_at-Got mg us m (some i) k e = share-Got mg us m i k e

pub get_handle-Got :
    (mg : HandleMgr) (us : List ℕ) (m : ℕ) → Inv mg us → Got mg us (get_handle mg m)
unfolding get_handle
get_handle-Got mg us m k = get_at-Got mg us m (mg.hmap m) k refl

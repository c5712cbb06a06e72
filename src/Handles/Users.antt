-- ===== src/Handles/Users.antt =====
-- Users of handles: they get handles, bind them and put them down, and handles are deleted, in any
-- order.
use lab_cse.Prelude.{
  ℕ, zero, suc, ◌<◌, ◌≡◌, refl, ap, sym, subst, ◌∙◌, Bool, true, false, ◌&&◌, Option, none, some,
  List, [], arith, ◌==◌, if◌then◌else◌, Bool-cases, inl, inr,
}
use lab_cse.Handles.{
  Hinfo, HandleMgr, new_mgr, store, get_handle, delete_handle, put_down, done_handle, bind_first,
  bind_cl, bind_at, safebind,
}
use lab_cse.Handles.Counts.{count, without, Inv, new_mgr-Inv, store-Inv, grown, get_handle-Got}
use lab_cse.Handles.Deletion.{Kept, delete_handle-Kept, count-without, without_apart}

put_down-Kept :
    (mg : HandleMgr) (us : List ℕ) (i n : ℕ) (h : Hinfo)
    → Inv mg us
    → mg.heap i ≡ some h
    → mg.hmap h.m ≡ some i
    → count i us ≡ suc n
    → h.refcnt ≡ suc n
    → Kept (without i us) (put_down mg i (some h))
unfolding put_down
put_down-Kept mg us i n h k at_i name users c =
    let less : Hinfo = record h { refcnt = n } in
    let rest = count-without i us (omega (arith, users)) in
    let k1 =
      store-Inv mg us (without i us) i h less k at_i name refl (omega (arith, users, rest))
        (λ j apart. without_apart i j us apart) in
    let next : ℕ → Option HandleMgr = λ x. put_down mg i (some (record h { refcnt = x })) in
    let last = (n == 0) && h.del in
    let (mg2, done, k2) = delete_handle-Kept (store mg i less) (without i us) h.m k1 in
    elim (Bool-cases last) [
      | inl e ↦ (
        mg2,
        ap next c
            ∙ ap (λ b. if b then delete_handle (store mg i less) h.m else some (store mg i less)) e
            ∙ done,
        k2,
      )
      | inr e ↦ (
        store mg i less,
        ap next c
            ∙ ap (λ b. if b then delete_handle (store mg i less) h.m else some (store mg i less)) e,
        k1,
      )
    ]

-- A user's handle: it is there, its name leads to it, and its count is that of its users.
pub record IsAlive (mg : HandleMgr) (us : List ℕ) (i : ℕ) (h : Hinfo) : Type 0 where
  pub there : mg.heap i ≡ some h
  pub name : mg.hmap h.m ≡ some i
  pub counted : h.refcnt ≡ count i us

used-IsAlive :
    (mg : HandleMgr) (us : List ℕ) (i : ℕ)
    → Inv mg us
    → 0 < count i us
    → (h : Hinfo) × IsAlive mg us i h
used-IsAlive mg us i k pos =
    let (h, there, name) = k.used i pos in
    let (g, same, _, c) = k.named h.m i name in
    let g_h : g ≡ h = cc (same, there) in
    (h, record { there = there; name = name; counted = ap (λ x. x.refcnt) (sym g_h) ∙ c })

pred : (n : ℕ) → 0 < n → (m : ℕ) × (n ≡ suc m)
pred zero h = absurd (omega arith)
pred (suc n) h = (n, refl)

done_handle-Kept :
    (mg : HandleMgr) (us : List ℕ) (i : ℕ)
    → Inv mg us
    → 0 < count i us
    → Kept (without i us) (done_handle mg i)
unfolding done_handle
done_handle-Kept mg us i k pos =
    let (h, a) = used-IsAlive mg us i k pos in
    let (n, e) = pred (count i us) pos in
    let (mg1, done, k1) = put_down-Kept mg us i n h k a.there a.name e (a.counted ∙ e) in
    (mg1, ap (put_down mg i) a.there ∙ done, k1)

module _ (mg : HandleMgr) (us : List ℕ) (i : ℕ) (k : Inv mg us) where
  bind_first-Inv :
      (h : Hinfo) (bound : Option ℕ) → IsAlive mg us i h → Inv (bind_first mg i h bound).0 us
  unfolding bind_first
  bind_first-Inv h none a =
      store-Inv mg us us i h (record h { del = true }) k a.there a.name refl a.counted
        (λ j apart. refl)
  bind_first-Inv h (some cl) a =
      store-Inv mg us us i h (record h { cl = some cl }) k a.there a.name refl a.counted
        (λ j apart. refl)

  bind_cl-Inv :
      (h : Hinfo) (bound cl : Option ℕ) → IsAlive mg us i h → Inv (bind_cl mg i h bound cl).0 us
  unfolding bind_cl
  bind_cl-Inv h bound none a = bind_first-Inv h bound a
  bind_cl-Inv h bound (some cl) a = k

  one_of :
      (b : Bool) (r : HandleMgr × Option ℕ)
      → Inv r.0 us
      → (let s : HandleMgr × Option ℕ = if b then (mg, none) else r in Inv s.0 us)
  one_of true r q = k
  one_of false r q = q

  safebind-Inv :
      (bound : Option ℕ)
      → 0 < count i us
      → (mg1 : HandleMgr) × (cl : Option ℕ) × (safebind mg i bound ≡ some (mg1, cl)) × Inv mg1 us
  unfolding safebind bind_at
  safebind-Inv bound pos =
      let (h, a) = used-IsAlive mg us i k pos in
      let r : HandleMgr × Option ℕ = if h.del then (mg, none) else bind_cl mg i h bound h.cl in
      (
        r.0,
        r.1,
        ap (bind_at mg i bound) a.there,
        one_of h.del (bind_cl mg i h bound h.cl) (bind_cl-Inv h bound h.cl a),
      )

-- The handles in use after any sequence of steps: each user has one, as often as it stands in
-- the list. Only a user binds a handle or puts it down.
pub data Runs : HandleMgr → List ℕ → Type 0 where
  start : Runs new_mgr []
  get :
      {mg mg1 : HandleMgr} {us : List ℕ} {r : Option ℕ}
      → Runs mg us
      → (m : ℕ) → get_handle mg m ≡ some (mg1, r)
      → Runs mg1 (grown r us)
  put :
      {mg mg1 : HandleMgr} {us : List ℕ}
      → Runs mg us
      → (i : ℕ) → 0 < count i us
      → done_handle mg i ≡ some mg1
      → Runs mg1 (without i us)
  delete :
      {mg mg1 : HandleMgr} {us : List ℕ}
      → Runs mg us
      → (m : ℕ) → delete_handle mg m ≡ some mg1
      → Runs mg1 us
  bind :
      {mg mg1 : HandleMgr} {us : List ℕ} {cl : Option ℕ}
      → Runs mg us
      → (i : ℕ) (bound : Option ℕ) → 0 < count i us
      → safebind mg i bound ≡ some (mg1, cl)
      → Runs mg1 us

some_same : {A : Type 0} (x y : A) (r : Option A) → r ≡ some x → r ≡ some y → x ≡ y
some_same x y r e f = cc (e, f)

Runs-Inv : {mg : HandleMgr} {us : List ℕ} → Runs mg us → Inv mg us
Runs-Inv start = new_mgr-Inv
Runs-Inv (get {mg} {mg1} {us} {r} k m e) =
    let (mg2, r2, f, i) = get_handle-Got mg us m (Runs-Inv k) in
    let same : (mg2, r2) ≡ (mg1, r) = some_same (mg2, r2) (mg1, r) (get_handle mg m) f e in
    subst (λ p. Inv p.0 (grown p.1 us)) same i
Runs-Inv (put {mg} {mg1} {us} k i pos e) =
    let (mg2, f, inv) = done_handle-Kept mg us i (Runs-Inv k) pos in
    subst (λ x. Inv x (without i us)) (some_same mg2 mg1 (done_handle mg i) f e) inv
Runs-Inv (delete {mg} {mg1} {us} k m e) =
    let (mg2, f, inv) = delete_handle-Kept mg us m (Runs-Inv k) in
    subst (λ x. Inv x us) (some_same mg2 mg1 (delete_handle mg m) f e) inv
Runs-Inv (bind {mg} {mg1} {us} {cl} k i bound pos e) =
    let (mg2, cl2, f, inv) = safebind-Inv mg us i (Runs-Inv k) bound pos in
    let same : (mg2, cl2) ≡ (mg1, cl) = some_same (mg2, cl2) (mg1, cl) (safebind mg i bound) f e in
    subst (λ p. Inv p.0 us) same inv

-- In whatever order handles are got, bound, put down and deleted: a handle that a user has is
-- allocated, its name leads to it, and its count is the number of its users; and its user can
-- bind it and put it down without a use of memory that is not allocated.
pub user-IsAlive :
    {mg : HandleMgr} {us : List ℕ}
    → Runs mg us
    → (i : ℕ) (bound : Option ℕ) → 0 < count i us
    → ((h : Hinfo) × IsAlive mg us i h)
      × ((mg1 : HandleMgr) × (cl : Option ℕ) × (safebind mg i bound ≡ some (mg1, cl)))
      × ((mg1 : HandleMgr) × (done_handle mg i ≡ some mg1))
user-IsAlive {mg} {us} k i bound pos =
    let inv = Runs-Inv k in
    let (mg1, cl, e, _) = safebind-Inv mg us i inv bound pos in
    let (mg2, f, _) = done_handle-Kept mg us i inv pos in
    (used-IsAlive mg us i inv pos, (mg1, cl, e), (mg2, f))

-- ===== src/LockServerCache/Invariant.antt =====
-- The invariant of a lock of lock_server_cache.cc, and that each handler keeps it.
use lab_cse.Prelude.{
  ℕ, ◌≡◌, refl, true, false, none, some, [], ◌∷◌, arith, ◌==◌, Bool-cases, Option-cases, inl, inr,
  ap, sym, subst, ◌⊎◌,
}
use lab_cse.Prelude.Text.{Text, text_eq, is_empty, text_eq_iff, text_eq_refl}
use lab_cse.LockServerCache.WaiterSet.{
  Waiters, erase, least, no_waiters, has, IsSorted, insert-IsSorted, insert-some, has-insert,
  has-no_waiters, erase-IsSorted, has-erase, least-has,
}
use lab_cse.LockServerCache.{
  State, Lock, Granted, Server, Acquired, new_lock, lock_of, on_acquire, on_release, acquire,
  release, free, locked, revoking, retrying, put, Status, ok, noent,
}

-- What each state says of the three fields.
abbrev pub StateInv : State → Lock → Type 0
StateInv free l =
    (is_empty l.holder ≡ true) × (is_empty l.retryer ≡ true) × (no_waiters l.waiter ≡ true)
StateInv locked l =
    (is_empty l.holder ≡ false) × (is_empty l.retryer ≡ true) × (no_waiters l.waiter ≡ true)
StateInv revoking l =
    (is_empty l.holder ≡ false)
    × (is_empty l.retryer ≡ true)
    × (no_waiters l.waiter ≡ false)
    × (has l.holder l.waiter ≡ false)
StateInv retrying l =
    (is_empty l.holder ≡ true) × (is_empty l.retryer ≡ false) × (has l.retryer l.waiter ≡ false)

pub record LockInv (l : Lock) : Type 0 where
  pub fields : StateInv l.state l
  pub sorted : IsSorted l.waiter
  pub named : has [] l.waiter ≡ false

abbrev pub Inv : Server → Type 0
Inv s = (lid : ℕ) → LockInv (lock_of s lid)

pub new_lock-LockInv : LockInv new_lock
unfolding has
new_lock-LockInv = record { fields = (refl, refl, refl); sorted = tt; named = refl }

empty-eq : (x y : Text) → text_eq x y ≡ true → is_empty x ≡ is_empty y
empty-eq x y h = ap is_empty ((text_eq_iff x y).0 h)

on_acquire-fields :
    (st : State) (l : Lock) (id : Text) (g : Granted)
    → l.state ≡ st
    → StateInv st l
    → is_empty id ≡ false
    → on_acquire st l id ≡ some g
    → StateInv g.lock.state g.lock
unfolding on_acquire
on_acquire-fields free l id g at inv named e = ground arith
on_acquire-fields locked l id g at inv named e = ground (
  arith,
  insert-some id l.waiter,
  has-insert id l.holder l.waiter,
  has-no_waiters l.holder l.waiter,
  text_eq_iff id l.holder,
  text_eq_iff l.holder id,
)
on_acquire-fields revoking l id g at inv named e = ground (
  arith,
  insert-some id l.waiter,
  has-insert id l.holder l.waiter,
  text_eq_iff id l.holder,
  text_eq_iff l.holder id,
)
on_acquire-fields retrying l id g at inv named e =
    ground
      (arith, has-insert id l.retryer l.waiter, text_eq_iff l.retryer id, text_eq_iff id l.retryer)

on_acquire-IsSorted :
    (st : State) (l : Lock) (id : Text) (g : Granted)
    → IsSorted l.waiter
    → on_acquire st l id ≡ some g
    → IsSorted g.lock.waiter
unfolding on_acquire
on_acquire-IsSorted free l id g s e = ground arith
on_acquire-IsSorted _ l id g s e = ground (arith, insert-IsSorted id l.waiter)

text_eq-empty : (id : Text) → is_empty id ≡ false → text_eq id [] ≡ false
unfolding text_eq
text_eq-empty [] h = cc
text_eq-empty (x ∷ xs) h = refl

on_acquire-named :
    (st : State) (l : Lock) (id : Text) (g : Granted)
    → is_empty id ≡ false
    → has [] l.waiter ≡ false
    → on_acquire st l id ≡ some g
    → has [] g.lock.waiter ≡ false
unfolding on_acquire
on_acquire-named free l id g named h e = ground arith
on_acquire-named _ l id g named h e =
    ground (arith, has-insert id [] l.waiter, text_eq-empty id named)

pub on_acquire-LockInv :
    (l : Lock) (id : Text) (g : Granted)
    → LockInv l
    → is_empty id ≡ false
    → on_acquire l.state l id ≡ some g
    → LockInv g.lock
on_acquire-LockInv l id g inv named e = record {
  fields = on_acquire-fields l.state l id g refl inv.fields named e;
  sorted = on_acquire-IsSorted l.state l id g inv.sorted e;
  named = on_acquire-named l.state l id g named inv.named e;
}

is_empty-has : (x : Text) (ys : Waiters) → has [] ys ≡ false → has x ys ≡ true → is_empty x ≡ false
is_empty-has [] ys h k = cc
is_empty-has (x ∷ xs) ys h k = refl

-- What a release that goes through finds and leaves.
abbrev pub passed : Lock → Text → Lock
passed l w = record l { state = retrying; retryer = w; waiter = erase w l.waiter; holder = [] }

pub on_release-passed :
    (l l' : Lock) (id : Text)
    → on_release l id ≡ some l'
    → (w : Text) × (least l.waiter ≡ some w)
      × (l.state ≡ revoking)
      × (id ≡ l.holder)
      × (l' ≡ passed l w)
unfolding on_release
on_release-passed l l' id e = elim (Option-cases (least l.waiter)) [
  | inl h ↦ ground (arith, h)
  | inr (w, h) ↦ (w, h, ground arith, ground (arith, text_eq_iff id l.holder), ground (arith, h))
]

passed-LockInv :
    (l : Lock) (w : Text)
    → LockInv l
    → least l.waiter ≡ some w
    → l.state ≡ revoking
    → LockInv (passed l w)
passed-LockInv l w inv h at =
    let held : has w l.waiter ≡ true = least-has w l.waiter h in
    record {
      fields = (
        refl,
        is_empty-has w l.waiter inv.named held,
        ground (arith, has-erase w w l.waiter inv.sorted, text_eq_refl w),
      );
      sorted = erase-IsSorted w l.waiter inv.sorted;
      named = ground (arith, has-erase w [] l.waiter inv.sorted, inv.named);
    }

put-Inv : (s : Server) (lid : ℕ) (l : Lock) → Inv s → LockInv l → Inv (put s lid l)
put-Inv s lid l inv li i = elim (Bool-cases (i == lid)) [ inl e ↦ rw e li | inr e ↦ rw e (inv i) ]

-- What `acquire` and `release` did, when they came to an end.
pub acquire_parts :
    (s : Server) (lid : ℕ) (id : Text) (a : Acquired)
    → acquire s lid id ≡ some a
    → (g : Granted) × (on_acquire (lock_of s lid).state (lock_of s lid) id ≡ some g)
      × (a ≡ record { server = put s lid g.lock; need_revoke = g.need_revoke; ret = g.ret })
unfolding acquire
acquire_parts s lid id a e =
    elim (Option-cases (on_acquire (lock_of s lid).state (lock_of s lid) id)) [
      | inl h ↦ ground (arith, h)
      | inr (g, h) ↦ (g, h, ground (arith, h))
    ]

pub release_parts :
    (s t : Server) (lid : ℕ) (id : Text) (st : Status)
    → release s lid id ≡ some (t, st)
    → ((s.lock_pool lid ≡ none) × (t ≡ s) × (st ≡ noent))
      ⊎ ((w : Text) × (least (lock_of s lid).waiter ≡ some w)
          × ((lock_of s lid).state ≡ revoking)
          × (id ≡ (lock_of s lid).holder)
          × (t ≡ put s lid (passed (lock_of s lid) w))
          × (st ≡ ok))
unfolding release
release_parts s t lid id st e = elim (Option-cases (s.lock_pool lid)) [
  | inl h ↦ inl (h, ground (arith, h), ground (arith, h))
  | inr (l, h) ↦ elim (Option-cases (on_release l id)) [
    | inl k ↦ ground (arith, h, k)
    | inr (l', k) ↦
        let (w, first, at, own, gone) = on_release-passed l l' id k in
        inr (w, rw h first, rw h at, rw h own, ground (arith, h, k, gone), ground (arith, h, k))
  ]
]

pub acquire-Inv :
    (s : Server) (lid : ℕ) (id : Text) (a : Acquired)
    → Inv s
    → is_empty id ≡ false
    → acquire s lid id ≡ some a
    → Inv a.server
acquire-Inv s lid id a inv named e =
    let (g, h, k) = acquire_parts s lid id a e in
    subst (λ b. Inv b.server) (sym k)
      (put-Inv s lid g.lock inv (on_acquire-LockInv (lock_of s lid) id g (inv lid) named h))

pub release-Inv :
    (s t : Server) (lid : ℕ) (id : Text) (st : Status)
    → Inv s
    → release s lid id ≡ some (t, st)
    → Inv t
release-Inv s t lid id st inv e = elim (release_parts s t lid id st e) [
  | inl (_, k, _) ↦ subst Inv (sym k) inv
  | inr (w, first, at, _, k, _) ↦
      subst Inv (sym k) (put-Inv s lid _ inv (passed-LockInv (lock_of s lid) w (inv lid) first at))
]

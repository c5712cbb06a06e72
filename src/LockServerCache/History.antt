-- ===== src/LockServerCache/History.antt =====
-- Histories of lock_server_cache.cc: the requests of all clients in the order in which they get
-- the mutex, and what the replies say about who owns a lock.
use lab_cse.Prelude.{
  ℕ, ◌≡◌, refl, sym, ◌∙◌, subst, Bool, true, false, some, List, [], ◌∷◌, arith, if◌then◌else◌, ◌==◌,
  Bool-cases, inl, inr, ◌||◌, ◌&&◌, ==_iff,
}
use lab_cse.Prelude.Text.{Text, text_eq, is_empty, text_eq_iff}
use lab_cse.LockServerCache.WaiterSet.{has, IsSorted, has-erase}
use lab_cse.LockServerCache.Invariant.{
  StateInv, LockInv, Inv, release_parts, passed, acquire-Inv, release-Inv, new_lock-LockInv,
}
use lab_cse.LockServerCache.Handlers.{Served, acquire-Served, grants}
use lab_cse.LockServerCache.{
  State, Lock, Server, Acquired, Status, lock_of, acquire, release, revoking, retrying, ok, retry,
  init,
}

-- A reply that was given to the client `id`.
pub data Event : Type 0 where
  asked released : (lid : ℕ) (id : Text) (st : Status) → Event

pub data Step (s : Server) : Event → Server → Type 0 where
  asks :
      (lid : ℕ) (id : Text) (a : Acquired)
      → is_empty id ≡ false
      → acquire s lid id ≡ some a
      → Step s (asked lid id a.ret) a.server
  releases :
      (lid : ℕ) (id : Text) (t : Server) (st : Status)
      → release s lid id ≡ some (t, st)
      → Step s (released lid id st) t

-- The newest event first.
pub data Reach : List Event → Server → Type 0 where
  start : Reach [] init
  next : {es : List Event} {e : Event} {s t : Server} → Reach es s → Step s e t → Reach (e ∷ es) t

abbrev pub is_ok : Status → Bool
is_ok ok = true
is_ok _ = false

abbrev pub is_retry : Status → Bool
is_retry retry = true
is_retry _ = false

-- The client that was given the lock and has not given it back, from the replies alone.
unfoldable pub owner : ℕ → List Event → Text
owner lid [] = []
owner lid (asked l id st ∷ es) = if (l == lid) && is_ok st then id else owner lid es
owner lid (released l id st ∷ es) = if (l == lid) && is_ok st then [] else owner lid es

-- The last reply to the client's requests for the lock was RETRY.
unfoldable pub told_to_retry : ℕ → Text → List Event → Bool
told_to_retry lid id [] = false
told_to_retry lid id (asked l j st ∷ es) =
    if (l == lid) && text_eq j id then is_retry st else told_to_retry lid id es
told_to_retry lid id (released l j st ∷ es) = told_to_retry lid id es

init-Inv : Inv init
init-Inv lid = new_lock-LockInv

-- Every lock of a server that has only answered requests satisfies the invariant.
pub Reach-Inv : {es : List Event} {s : Server} → Reach es s → Inv s
Reach-Inv start = init-Inv
Reach-Inv (next {s = s} r (asks lid id a named e)) = acquire-Inv s lid id a (Reach-Inv r) named e
Reach-Inv (next {s = s} r (releases lid id t st e)) = release-Inv s t lid id st (Reach-Inv r) e

pub empty_eq : (x : Text) → is_empty x ≡ true → x ≡ []
empty_eq [] h = refl
empty_eq (x ∷ xs) h = cc

asked_same :
    (o : Text) (s : Server) (lid : ℕ) (id : Text) (a : Acquired)
    → Served s lid id a
    → (lock_of s lid).holder ≡ o
    → (lock_of a.server lid).holder ≡ (if is_ok a.ret then id else o)
asked_same o s lid id a v h = elim (Bool-cases (grants (lock_of s lid) id)) [
  | inl c ↦ ground (arith, v.given c)
  | inr c ↦ ground (arith, v.queued c)
]

asks-owner :
    (es : List Event) (s : Server) (lid l : ℕ) (id : Text) (a : Acquired)
    → Served s l id a
    → (lock_of s lid).holder ≡ owner lid es
    → (lock_of a.server lid).holder ≡ owner lid (asked l id a.ret ∷ es)
unfolding owner
asks-owner es s lid l id a v h = elim (Bool-cases (lid == l)) [
  | inl same ↦
      let here = subst (λ i. Served s i id a) (sym ((==_iff lid l).0 same)) v in
      ground (arith, asked_same (owner lid es) s lid id a here h, same)
  | inr differ ↦ ground (arith, v.others lid differ, differ)
]

releases-owner :
    (es : List Event) (s t : Server) (lid l : ℕ) (id : Text) (st : Status)
    → release s l id ≡ some (t, st)
    → (lock_of s lid).holder ≡ owner lid es
    → (lock_of t lid).holder ≡ owner lid (released l id st ∷ es)
unfolding owner
releases-owner es s t lid l id st e h = elim (release_parts s t l id st e) [
  | inl (_, k, r) ↦ ground (arith, k, r)
  | inr (w, _, _, _, k, r) ↦ ground (arith, k, r)
]

-- The holder that the server has noted for a lock is the client that, by the replies given so
-- far, was granted the lock and has not released it.
pub holder-owner :
    {es : List Event} {s : Server} (lid : ℕ) → Reach es s → (lock_of s lid).holder ≡ owner lid es
unfolding owner
holder-owner lid start = refl
holder-owner lid (next {es = es} {s = s} r (asks l id a named e)) =
    asks-owner es s lid l id a (acquire-Served s l id a (Reach-Inv r) e) (holder-owner lid r)
holder-owner lid (next {es = es} {s = s} r (releases l id t st e)) =
    releases-owner es s t lid l id st e (holder-owner lid r)

-- Mutual exclusion: the server replies OK to a request for a lock only if, by the replies given
-- so far, no client owns the lock.
pub mutual_exclusion :
    {es : List Event} {s : Server} (lid : ℕ) (id : Text) (a : Acquired)
    → Reach es s
    → acquire s lid id ≡ some a
    → a.ret ≡ ok
    → owner lid es ≡ []
mutual_exclusion {es} {s} lid id a r e granted =
    let v = acquire-Served s lid id a (Reach-Inv r) e in
    elim (Bool-cases (grants (lock_of s lid) id)) [
      | inl c ↦ sym (holder-owner lid r) ∙ empty_eq _ (v.given c).1
      | inr c ↦ ground (arith, v.queued c, granted)
    ]

-- `id` is in the queue or is the one that is called back.
abbrev pub Remembered : Lock → Text → Type 0
Remembered l id = (has id l.waiter || text_eq l.retryer id) ≡ true

-- When the lock is granted to `j`, no other client is the one that is called back.
not_called_back :
    (st : State) (l : Lock) (id j : Text)
    → l.state ≡ st
    → StateInv st l
    → is_empty id ≡ false
    → text_eq j id ≡ false
    → grants l j ≡ true
    → text_eq l.retryer id ≡ false
not_called_back retrying l id j at f named ne c =
    ground (arith, text_eq_iff l.retryer j, text_eq_iff l.retryer id, text_eq_iff j id)
not_called_back _ l id j at f named ne c = ground (arith, text_eq_iff l.retryer id)

asked-Remembered :
    (b : Bool) (s : Server) (lid : ℕ) (id j : Text) (a : Acquired)
    → LockInv (lock_of s lid)
    → is_empty id ≡ false
    → Served s lid j a
    → (b ≡ true → Remembered (lock_of s lid) id)
    → (if text_eq j id then is_retry a.ret else b) ≡ true
    → Remembered (lock_of a.server lid) id
asked-Remembered b s lid id j a inv named v old h =
    let l = lock_of s lid in
    elim (Bool-cases (grants l j)) [
      | inl c ↦
          ground (arith, v.given c, v.kept id, not_called_back l.state l id j refl inv.fields named)
      | inr c ↦ ground (arith, v.queued c, v.kept id, text_eq_iff j id)
    ]

asks-Remembered :
    (es : List Event) (s : Server) (lid l : ℕ) (id j : Text) (a : Acquired)
    → Inv s
    → is_empty id ≡ false
    → Served s l j a
    → (told_to_retry lid id es ≡ true → Remembered (lock_of s lid) id)
    → told_to_retry lid id (asked l j a.ret ∷ es) ≡ true
    → Remembered (lock_of a.server lid) id
unfolding told_to_retry
asks-Remembered es s lid l id j a inv named v old h = elim (Bool-cases (lid == l)) [
  | inl same ↦
      let here = subst (λ i. Served s i j a) (sym ((==_iff lid l).0 same)) v in
      asked-Remembered (told_to_retry lid id es) s lid id j a (inv lid) named here old
        (ground (arith, same))
  | inr differ ↦ ground (arith, v.others lid differ, differ)
]

passed-Remembered :
    (l : Lock) (id w : Text)
    → StateInv revoking l
    → IsSorted l.waiter
    → is_empty id ≡ false
    → Remembered l id
    → Remembered (passed l w) id
passed-Remembered l id w f sorted named h =
    ground (arith, has-erase w id l.waiter sorted, text_eq_iff l.retryer id, text_eq_iff w id)

releases-Remembered :
    (s t : Server) (lid l : ℕ) (id j : Text) (st : Status)
    → Inv s
    → is_empty id ≡ false
    → release s l j ≡ some (t, st)
    → Remembered (lock_of s lid) id
    → Remembered (lock_of t lid) id
releases-Remembered s t lid l id j st inv named e h = elim (release_parts s t l j st e) [
  | inl (_, k, _) ↦ subst (λ u. Remembered (lock_of u lid) id) (sym k) h
  | inr (w, first, at, _, k, _) ↦
      let f : StateInv revoking (lock_of s l) =
        subst (λ u. StateInv u (lock_of s l)) at (inv l).fields in
      let there = passed-Remembered (lock_of s l) id w f (inv l).sorted named in
      elim (Bool-cases (lid == l)) [
        | inl same ↦
            let at_l = subst (λ i. Remembered (lock_of s i) id) ((==_iff lid l).0 same) h in
            ground (arith, there at_l, k, same)
        | inr differ ↦ ground (arith, k, differ)
      ]
]

-- No client is forgotten: one whose last reply for a lock was RETRY is in the queue of the lock,
-- or is the one that the server calls back.
pub told_to_retry-Remembered :
    {es : List Event} {s : Server} (lid : ℕ) (id : Text)
    → Reach es s
    → is_empty id ≡ false
    → told_to_retry lid id es ≡ true
    → Remembered (lock_of s lid) id
unfolding told_to_retry
told_to_retry-Remembered lid id start named h = cc
told_to_retry-Remembered lid id (next {es = es} {s = s} r (asks l j a named_j e)) named h =
    asks-Remembered es s lid l id j a (Reach-Inv r) named (acquire-Served s l j a (Reach-Inv r) e)
      (told_to_retry-Remembered lid id r named) h
told_to_retry-Remembered lid id (next {es = es} {s = s} r (releases l j t st e)) named h =
    releases-Remembered s t lid l id j st (Reach-Inv r) named e
      (told_to_retry-Remembered lid id r named h)

-- ===== src/Rpc/AtMostOnce.antt =====
-- No request is handed to its handler twice.
use lab_cse.Prelude.{
  ℕ, ◌<◌, ◌≤◌, ◌≡◌, refl, subst, Bool, true, false, ◌&&◌, ◌||◌, Option, none, some, List, [], ◌∷◌,
  arith, ltb, ◌==◌, if◌then◌else◌, Bool-cases, inl, inr, ==_refl,
}
use lab_cse.Rpc.Marshall.{Bytes}
use lab_cse.Rpc.ReplyWindow.{
  Reply, RpcState, fresh, inprogress, done, forgotten, new_reply, find_reply, front_above,
  insert_reply, erase_old, on_found, check, set_reply, Windows, update, checkduplicate_and_update,
  add_reply,
}

abbrev pub is_fresh : RpcState → Bool
is_fresh fresh = true
is_fresh inprogress = false
is_fresh (done b) = false
is_fresh forgotten = false

abbrev pub has : List Reply → ℕ → Bool
has [] x = false
has (r ∷ rs) x = (r.xid == x) || has rs x

-- The request is in the window, or older than all of it.
abbrev recalls : List Reply → ℕ → Bool
recalls w x = has w x || front_above w x

find_reply-has : (w : List Reply) (x : ℕ) → find_reply w x ≡ none → has w x ≡ false
unfolding find_reply
find_reply-has [] x e = refl
find_reply-has (r ∷ rs) x e = ground (arith, find_reply-has rs x)

has-insert_reply :
    (w : List Reply) (r : Reply) (x : ℕ) → has (insert_reply w r) x ≡ (has w x || (r.xid == x))
unfolding insert_reply
has-insert_reply [] r x = ground arith
has-insert_reply (s ∷ w) r x = ground (arith, has-insert_reply w r x)

front-insert_reply :
    (w : List Reply) (r : Reply) (x : ℕ)
    → front_above w r.xid ≡ false
    → front_above w x ≡ true
    → front_above (insert_reply w r) x ≡ true
unfolding insert_reply
front-insert_reply [] r x h e = cc
front-insert_reply (s ∷ w) r x h e = ground arith

has-erase_old :
    (w : List Reply) (x xid_rep : ℕ)
    → xid_rep ≤ x
    → has w x ≡ true
    → has (erase_old w xid_rep) x ≡ true
unfolding erase_old
has-erase_old [] x xid_rep le h = cc
has-erase_old (r ∷ w) x xid_rep le h = ground (arith, has-erase_old w x xid_rep le)

-- What is left begins with a request that is not older than `xid_rep`.
front-erase_old :
    (w : List Reply) (x y xid_rep : ℕ)
    → has w y ≡ true
    → xid_rep ≤ y
    → x < xid_rep
    → front_above (erase_old w xid_rep) x ≡ true
unfolding erase_old
front-erase_old [] x y xid_rep h le lt = cc
front-erase_old (r ∷ w) x y xid_rep h le lt = ground (arith, front-erase_old w x y xid_rep)

recalls-erase_old :
    (w : List Reply) (x y xid_rep : ℕ)
    → has w y ≡ true
    → xid_rep ≤ y
    → recalls w x ≡ true
    → recalls (erase_old w xid_rep) x ≡ true
unfolding erase_old
recalls-erase_old [] x y xid_rep h le e = cc
recalls-erase_old (r ∷ w) x y xid_rep h le e = elim (Bool-cases (ltb x xid_rep)) [
  | inl old ↦ ground (arith, front-erase_old (r ∷ w) x y xid_rep h le)
  | inr new ↦ ground (arith, has-erase_old w x xid_rep)
]

-- A request that the window recalls is not new, and stays recalled.
record Checked (w : List Reply) (x xid : ℕ) (r : List Reply × RpcState) : Type 0 where
  keeps : recalls w x ≡ true → recalls r.0 x ≡ true
  not_again : recalls w xid ≡ true → is_fresh r.1 ≡ false
  noted : is_fresh r.1 ≡ true → has r.0 xid ≡ true

found_has : (w : List Reply) (x : ℕ) (r : Reply) → find_reply w x ≡ some r → has w x ≡ true
unfolding find_reply
found_has [] x r e = cc
found_has (s ∷ w) x r e = ground (arith, found_has w x r)

on_found_lem :
    (w : List Reply) (x xid xid_rep : ℕ)
    → xid_rep ≤ xid
    → (f : Option Reply) → (f ≡ none → has w xid ≡ false)
    → Checked w x xid (on_found w xid xid_rep f)
unfolding on_found
on_found_lem w x xid xid_rep le (some r) h = record {
  keeps = λ e. e;
  not_again = λ e. ground arith;
  noted = λ e. ground arith;
}
on_found_lem w x xid xid_rep le none h = elim (Bool-cases (front_above w xid)) [
  | inl old ↦ rw old (record { keeps = λ e. e; not_again = λ e. refl; noted = λ e. cc })
  | inr young ↦
      let r = new_reply xid in
      let v = insert_reply w r in
      let there : has v xid ≡ true = ground (arith, has-insert_reply w r xid, ==_refl xid) in
      rw young (record {
        keeps = λ e.
            recalls-erase_old v x xid xid_rep there le
              (ground (arith, has-insert_reply w r x, front-insert_reply w r x));
        not_again = λ e. ground (arith, h refl);
        noted = λ e. has-erase_old v xid xid_rep le there;
      })
]

check-Checked :
    (w : List Reply) (x xid xid_rep : ℕ) → xid_rep ≤ xid → Checked w x xid (check w xid xid_rep)
unfolding check on_found
check-Checked w x xid xid_rep le =
    on_found_lem w x xid xid_rep le (find_reply w xid) (find_reply-has w xid)

pub check_noted :
    (w : List Reply) (x xid_rep : ℕ)
    → xid_rep < x
    → is_fresh (check w x xid_rep).1 ≡ true
    → has (check w x xid_rep).0 x ≡ true
check_noted w x xid_rep lt = (check-Checked w x x xid_rep (omega arith)).noted

pub record Received : Type 0 where
  pub clt_nonce : ℕ
  pub xid : ℕ

abbrev same : Received → ℕ → ℕ → Bool
same r clt xid = (r.clt_nonce == clt) && (r.xid == xid)

-- The request was handed to its handler.
abbrev pub was_run : List Received → ℕ → ℕ → Bool
was_run [] clt xid = false
was_run (r ∷ rs) clt xid = same r clt xid || was_run rs clt xid

abbrev pub note : RpcState → Received → List Received → List Received
note s r rs = if is_fresh s then r ∷ rs else rs

-- The windows after requests and replies in any order, with the requests that were handed to
-- their handlers. A client that sends a request has no reply for it: `xid_rep < xid`. A request of
-- a client with nonce 0 is not checked.
pub data Reach : Windows → List Received → Type 0 where
  start : Reach (λ _. []) []
  receive :
      {w : Windows} {rs : List Received}
      → Reach w rs
      → (clt xid xid_rep : ℕ) → xid_rep < xid
      → Reach (checkduplicate_and_update w clt xid xid_rep).0 (
          note
            (checkduplicate_and_update w clt xid xid_rep).1
            (record { clt_nonce = clt; xid = xid })
            rs)
  reply :
      {w : Windows} {rs : List Received}
      → Reach w rs
      → (clt xid : ℕ) (b : Bytes) → Reach (add_reply w clt xid b) rs
  unchecked :
      {w : Windows} {rs : List Received}
      → Reach w rs
      → (xid : ℕ) → Reach w (record { clt_nonce = 0; xid = xid } ∷ rs)

has-set_reply : (w : List Reply) (xid x : ℕ) (b : Bytes) → has (set_reply w xid b) x ≡ has w x
unfolding set_reply
has-set_reply [] xid x b = refl
has-set_reply (r ∷ w) xid x b = ground (arith, has-set_reply w xid x b)

front-set_reply :
    (w : List Reply) (xid x : ℕ) (b : Bytes) → front_above (set_reply w xid b) x ≡ front_above w x
unfolding set_reply
front-set_reply [] xid x b = refl
front-set_reply (r ∷ w) xid x b = ground arith

recalls_received :
    (w : Windows) (rs : List Received) (c x clt xid : ℕ) (r : List Reply × RpcState)
    → Checked (w c) xid x r
    → was_run (note r.1 (record { clt_nonce = c; xid = x }) rs) clt xid ≡ true
    → (was_run rs clt xid ≡ true → recalls (w clt) xid ≡ true)
    → recalls (update w c r.0 clt) xid ≡ true
recalls_received w rs c x clt xid r k h old = elim (Bool-cases (clt == c)) [
  | inr e ↦ rw e (old (ground arith))
  | inl e ↦
      let z : clt ≡ c = ground arith in
      rw e (elim (Bool-cases (was_run rs clt xid)) [
        | inl before ↦ k.keeps (subst (λ i. recalls (w i) xid ≡ true) z (old before))
        | inr first ↦ ground (arith, k.noted)
      ])
]

recalls_run :
    {w : Windows} {rs : List Received}
    → Reach w rs
    → (clt xid : ℕ) → (clt == 0) ≡ false
    → was_run rs clt xid ≡ true
    → recalls (w clt) xid ≡ true
unfolding checkduplicate_and_update add_reply
recalls_run start clt xid some_nonce h = cc
recalls_run (unchecked {w} {rs} r x) clt xid some_nonce h =
    recalls_run r clt xid some_nonce (ground arith)
recalls_run (receive {w} {rs} r c x rep lt) clt xid some_nonce h =
    let k = check-Checked (w c) xid x rep (omega arith) in
    recalls_received w rs c x clt xid (check (w c) x rep) k h (recalls_run r clt xid some_nonce)
recalls_run (reply {w} {rs} r c x b) clt xid some_nonce h =
    let k = recalls_run r clt xid some_nonce h in
    elim (Bool-cases (clt == c)) [
      | inl e ↦
          let z : clt ≡ c = ground arith in
          rw (e, has-set_reply (w c) x xid b, front-set_reply (w c) x xid b)
            (subst (λ i. recalls (w i) xid ≡ true) z k)
      | inr e ↦ rw e k
    ]

-- In whatever order requests and replies come, as long as a client with a nonce never claims to have a reply
-- for the request that it sends: a request that was handed to its handler once is not handed to
-- it again.
pub at_most_once :
    {w : Windows} {rs : List Received}
    → Reach w rs
    → (clt xid xid_rep : ℕ) → (clt == 0) ≡ false
    → was_run rs clt xid ≡ true
    → xid_rep < xid
    → is_fresh (checkduplicate_and_update w clt xid xid_rep).1 ≡ false
unfolding checkduplicate_and_update
at_most_once {w} r clt xid xid_rep some_nonce h lt =
    (check-Checked (w clt) xid xid xid_rep (omega arith)).not_again
      (recalls_run r clt xid some_nonce h)

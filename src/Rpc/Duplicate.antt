-- ===== src/Rpc/Duplicate.antt =====
-- A request that is sent again after it was answered.
use lab_cse.Prelude.{
  ℕ, ◌<◌, ◌≡◌, refl, ap, Bool, true, false, some, List, [], ◌∷◌, arith, ◌==◌, Bool-cases, inl, inr,
  ==_refl,
}
use lab_cse.Rpc.Marshall.{Bytes, Marshall, ReqHeader}
use lab_cse.Rpc.Unmarshall.{Unmarshall}
use lab_cse.Rpc.ReplyWindow.{
  Reply, done, find_reply, on_found, check, set_reply, Windows, checkduplicate_and_update,
  add_reply,
}
use lab_cse.Rpc.AtMostOnce.{is_fresh, has, check_noted}
use lab_cse.Rpc.Server.{Handler, Rpcs, counted, save_conn}

find_reply-set_reply :
    (w : List Reply) (x : ℕ) (b : Bytes)
    → has w x ≡ true
    → (r : Reply) × (find_reply (set_reply w x b) x ≡ some r) × (r.cb_present ≡ true) × (r.buf ≡ b)
unfolding find_reply set_reply
find_reply-set_reply [] x b h = cc
find_reply-set_reply (r ∷ w) x b h = elim (Bool-cases (r.xid == x)) [
  | inl e ↦ (record r { cb_present = true; buf = b }, rw (e, e) refl, refl, refl)
  | inr e ↦ let (q, f, g, k) = find_reply-set_reply w x b (ground arith) in (q, rw (e, e) f, g, k)
]

-- A request that was new and has its reply is answered with that reply.
check-set_reply :
    (w : List Reply) (x xid_rep : ℕ) (b : Bytes)
    → has w x ≡ true
    → check (set_reply w x b) x xid_rep ≡ (set_reply w x b, done b)
unfolding check on_found
check-set_reply w x xid_rep b h =
    let (r, f, g, k) = find_reply-set_reply w x b h in rw f (rw (g, k) refl)

again :
    (w : Windows) (clt x rep : ℕ) (b : Bytes)
    → rep < x
    → is_fresh (checkduplicate_and_update w clt x rep).1 ≡ true
    → (checkduplicate_and_update
        (add_reply (checkduplicate_and_update w clt x rep).0 clt x b)
        clt
        x
        rep).1
      ≡ done b
unfolding checkduplicate_and_update add_reply
again w clt x rep b lt f = rw (==_refl clt) (
    ap (λ r. r.1)
      (check-set_reply (check (w clt) x rep).0 x rep b (check_noted (w clt) x rep lt f)))

-- What the request meets, both times it comes.
pub record Meets {S : Type 0} (s : Rpcs S) (f : Handler S) (req : Unmarshall) (h : ReqHeader)
    : Type 0 where
  pub ok : req.ok ≡ true
  pub srv : h.srv_nonce ≡ s.nonce
  pub proc : s.procs h.proc ≡ some f
  pub clt : (h.clt_nonce == 0) ≡ false
  pub rep : h.xid_rep < h.xid

-- The part of the server that decides what a request meets.
record Same {S : Type 0} (s t : Rpcs S) : Type 0 where
  nonce : t.nonce ≡ s.nonce
  procs : t.procs ≡ s.procs
  reply_window : t.reply_window ≡ s.reply_window

module _ {S : Type 0} (mem : Bytes) (older : ℕ → ℕ → Bool) (h : ReqHeader) (req : Unmarshall) where
  -- The server while the handler runs.
  abbrev meanwhile : Rpcs S → ℕ → Rpcs S
  unfolding counted save_conn checkduplicate_and_update
  meanwhile s c =
      counted
        (record (save_conn older s h.clt_nonce c) {
          reply_window = (checkduplicate_and_update s.reply_window h.clt_nonce h.xid h.xid_rep).0;
        })
        h.proc

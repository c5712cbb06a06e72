-- ===== src/Rpc/Replies.antt =====
-- Replies that reach the callers of `rpcc`.
use lab_cse.Prelude.{
  ℕ, ◌^◌, ◌<◌, ◌≤◌, ◌≡◌, refl, ap, sym, subst, ◌∙◌, Bool, true, false, not, some, List, [], ◌∷◌,
  arith, ◌==◌, if◌then◌else◌, Bool-cases, inl, inr, length,
}
use lab_cse.Rpc.Marshall.{Bytes, new_marshall, rpc_header_sz, ReplyHeader, pack_reply_header}
use lab_cse.Rpc.Unmarshall.{Unmarshall, new_unmarshall, take_in, unpack_reply_header}
use lab_cse.Rpc.Values.{Value, type_of, write}
use lab_cse.Rpc.Reading.{Fits}
use lab_cse.Rpc.Calls.{call_m}
use lab_cse.Rpc.Delivery.{delivered}
use lab_cse.Rpc.EndToEnd.{call_m-reply}
use lab_cse.Rpc.XidWindow.{update_xid_rep}
use lab_cse.Rpc.Client.{Caller, Rpcc, find_call, finish_caller, notify, on_reply, got_pdu, status}

finish_caller_xid :
    (c : Caller) (rep : Unmarshall) (h : ReplyHeader) → (finish_caller c rep h).xid ≡ c.xid
unfolding finish_caller
finish_caller_xid c rep h = elim (Bool-cases c.done) [
  | inl e ↦
      subst
        (λ b.
          (if b then c else record c { un = take_in rep; intret = h.ret; done = true }).xid ≡ c.xid)
        (sym e) refl
  | inr e ↦
      subst
        (λ b.
          (if b then c else record c { un = take_in rep; intret = h.ret; done = true }).xid ≡ c.xid)
        (sym e) refl
]

find_call-notify :
    (cs : List Caller) (c : Caller) (rep : Unmarshall) (h : ReplyHeader)
    → find_call cs h.xid ≡ some c
    → find_call (notify cs rep h) h.xid ≡ some (finish_caller c rep h)
unfolding find_call notify
find_call-notify [] c rep h f = cc
find_call-notify (d ∷ cs) c rep h f = elim (Bool-cases (d.xid == h.xid)) [
  | inl e ↦
      let same : ((finish_caller d rep h).xid == h.xid) ≡ true =
        ap (λ x. x == h.xid) (finish_caller_xid d rep h) ∙ e in
      let d_c : d ≡ c = ground arith in rw e (rw same (ap (λ x. some (finish_caller x rep h)) d_c))
  | inr e ↦ rw e (rw e (find_call-notify cs c rep h (ground arith)))
]

abbrev pick : Bool → Rpcc → Rpcc → Rpcc
pick b s t = if b then s else t

-- A good reply for a number that is pending.
on_reply_good :
    (s : Rpcc) (c : Caller) (u : Unmarshall) (h : ReplyHeader)
    → u.ok ≡ true
    → find_call s.calls h.xid ≡ some c
    → find_call (on_reply s (u, h)).calls h.xid ≡ some (finish_caller c u h)
unfolding on_reply
on_reply_good s c u h ok f =
    let t : Rpcc = record s {
      xid_rep_window = update_xid_rep s.xid_rep_window h.xid;
      calls = notify s.calls u h;
    } in
    ap (λ o. find_call (pick (not o) s t).calls h.xid) ok ∙ find_call-notify s.calls c u h f

-- The caller that waits for it gets the reply.
abbrev pub with_reply : Caller → Unmarshall → ReplyHeader → Caller
with_reply c u h = record c { un = take_in u; intret = h.ret; done = true }

finish_waiting :
    (c : Caller) (u : Unmarshall) (h : ReplyHeader)
    → c.done ≡ false
    → finish_caller c u h ≡ with_reply c u h
unfolding finish_caller
finish_waiting c u h e = ap (λ b. if b then c else with_reply c u h) e

finish_done :
    (c : Caller) (u : Unmarshall) (h : ReplyHeader) → c.done ≡ true → finish_caller c u h ≡ c
unfolding finish_caller
finish_done c u h e = ap (λ b. if b then c else with_reply c u h) e

abbrev reply_of : Bytes → Unmarshall × ReplyHeader
reply_of b = unpack_reply_header (new_unmarshall b)

got_pdu_good :
    (s : Rpcc) (c : Caller) (b : Bytes) (x : ℕ)
    → (reply_of b).0.ok ≡ true
    → (reply_of b).1.xid ≡ x
    → find_call s.calls x ≡ some c
    → find_call (got_pdu s b).calls x ≡ some (finish_caller c (reply_of b).0 (reply_of b).1)
unfolding got_pdu
got_pdu_good s c b x ok e f =
    let r = reply_of b in
    subst (λ y. find_call (on_reply s r).calls y ≡ some (finish_caller c r.0 r.1)) e
      (on_reply_good s c r.0 r.1 ok (subst (λ y. find_call s.calls y ≡ some c) (sym e) f))

-- Of two replies with good headers for a call that waits, the first is the one that the caller
-- gets: the second, whatever it says, leaves the caller with the status and the bytes of the first.
pub got_pdu-got_pdu :
    (s : Rpcc) (c : Caller) (b b2 : Bytes) (x : ℕ)
    → (let r = unpack_reply_header (new_unmarshall b) in (r.0.ok ≡ true) × (r.1.xid ≡ x))
    → (let r = unpack_reply_header (new_unmarshall b2) in (r.0.ok ≡ true) × (r.1.xid ≡ x))
    → find_call s.calls x ≡ some c
    → c.done ≡ false
    → (let r = unpack_reply_header (new_unmarshall b) in
        find_call (got_pdu (got_pdu s b) b2).calls x ≡ some (with_reply c r.0 r.1))
got_pdu-got_pdu s c b b2 x k k2 f waiting =
    let r = reply_of b in
    let r2 = reply_of b2 in
    let first : find_call (got_pdu s b).calls x ≡ some (with_reply c r.0 r.1) =
      got_pdu_good s c b x k.0 k.1 f ∙ ap (λ y. some y) (finish_waiting c r.0 r.1 waiting) in
    got_pdu_good (got_pdu s b) (with_reply c r.0 r.1) b2 x k2.0 k2.1 first
    ∙ ap (λ y. some y) (finish_done (with_reply c r.0 r.1) r2.0 r2.1 refl)

-- Let a call wait, and let the server's reply to it hold a value that fits its type with a status
-- that is not negative. When the reply is delivered, shorter than 2 ^ 31 and with its first four
-- bytes filled in, then the call returns that status and that value.
pub call-reply :
    (s : Rpcc) (c : Caller) (h : ReplyHeader) (r old : Value) (mem sz : Bytes)
    → find_call s.calls h.xid ≡ some c
    → c.done ≡ false
    → h.xid < 2 ^ 32
    → h.ret < 2 ^ 31
    → Fits r
    → rpc_header_sz ≤ length mem
    → length sz ≡ 4
    → length (delivered sz (pack_reply_header (write (new_marshall mem) r) h)) < 2 ^ 31
    → (c1 : Caller) × (find_call
          (got_pdu s (delivered sz (pack_reply_header (write (new_marshall mem) r) h))).calls
          h.xid
        ≡ some c1)
      × (call_m (status c1) c1.un (type_of r) old ≡ some (h.ret, r))
call-reply s c h r old mem sz f waiting x good fits mem_size e lim =
    let b = delivered sz (pack_reply_header (write (new_marshall mem) r) h) in
    let (same, ok, called) = call_m-reply h r old mem sz x good fits mem_size e lim in
    let u = (reply_of b).0 in
    (
      with_reply c u (reply_of b).1,
      got_pdu_good s c b h.xid ok (ap (λ g. g.xid) same) f
          ∙ ap (λ y. some y) (finish_waiting c u (reply_of b).1 waiting),
      ap (λ g. call_m g.ret (take_in u) (type_of r) old) same ∙ called,
    )

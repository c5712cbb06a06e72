-- ===== src/Rpc/Client.antt =====
-- `rpcc` of rpc/rpc.h and rpc/rpc.cc. `call1` is cut where it lets go of the mutex: the number and
-- the header of the request, a transmission, and the end of the call; other threads and replies
-- come in between. A connection and the waiting are left out.
use lab_cse.Prelude.{
  ℕ, ◌+◌, ◌%◌, ◌^◌, Bool, true, false, not, ◌&&◌, ◌||◌, Option, none, some, List, [], ◌∷◌, ◌++◌,
  ltb, ◌==◌, if◌then◌else◌,
}
use lab_cse.Rpc.Marshall.{Bytes, Marshall, cstr, ReqHeader, ReplyHeader, pack_req_header}
use lab_cse.Rpc.Unmarshall.{Unmarshall, new_unmarshall, take_in, unpack_reply_header}
use lab_cse.Rpc.Calls.{timeout_failure, bind_failure, cancel_failure}
use lab_cse.Rpc.XidWindow.{front, update_xid_rep}

-- `caller`
pub record Caller : Type 0 where
  pub xid : ℕ
  pub un : Unmarshall
  pub intret : ℕ
  pub done : Bool

-- `rpcc::request` that is valid.
pub record DupReq : Type 0 where
  pub buf : Bytes
  pub xid : ℕ

-- The map `calls_` is a list of callers with different numbers. `xid_rep_done` is `none` where
-- `xid_rep_done_` is -1.
pub record Rpcc : Type 0 where
  pub clt_nonce : ℕ
  pub srv_nonce : ℕ
  pub bind_done : Bool
  pub xid : ℕ
  pub lossytest : ℕ
  pub retrans : Bool
  pub reachable : Bool
  pub destroy_wait : Bool
  pub calls : List Caller
  pub xid_rep_window : List ℕ
  pub dup_req : Option DupReq
  pub xid_rep_done : Option ℕ

-- The constructor, with what `random()` and the environment give.
abbrev pub new_rpcc : ℕ → ℕ → Bool → Rpcc
new_rpcc random lossy retrans = record {
  clt_nonce = if retrans then random else 0;
  srv_nonce = 0;
  bind_done = false;
  xid = 1;
  lossytest = lossy;
  retrans = retrans;
  reachable = true;
  destroy_wait = false;
  calls = [];
  xid_rep_window = 0 ∷ [];
  dup_req = none;
  xid_rep_done = none;
}

-- `rpc_const::bind`
abbrev pub bind_proc : ℕ
bind_proc = 1

-- The constructor of `caller`; it sets `intret` nowhere before a reply does.
abbrev pub new_caller : ℕ → Unmarshall → Caller
new_caller xxid un = record { xid = xxid; un = un; intret = 0; done = false }

unfoldable pub find_call : List Caller → ℕ → Option Caller
find_call [] xid = none
find_call (c ∷ cs) xid = if c.xid == xid then some c else find_call cs xid

-- `calls_.erase(xid)`
unfoldable pub erase_call : List Caller → ℕ → List Caller
erase_call [] xid = []
erase_call (c ∷ cs) xid = let rest = erase_call cs xid in if c.xid == xid then rest else c ∷ rest

-- How `call1` begins: it gives a status, or a number and a request with its header.
pub data Begun : Type 0 where
  refused : ℕ → Begun
  begun : ReqHeader → Marshall → Begun

unfoldable pub req_header : Rpcc → ℕ → ReqHeader
req_header s proc = record {
  xid = s.xid;
  proc = proc;
  clt_nonce = s.clt_nonce;
  srv_nonce = s.srv_nonce;
  xid_rep = front s.xid_rep_window;
}

-- A call before `bind`, or a second `bind`.
abbrev pub is_unbound : Rpcc → ℕ → Bool
is_unbound s proc =
    (not (proc == bind_proc) && not s.bind_done) || ((proc == bind_proc) && s.bind_done)

-- `ca.xid = xid_++` and `calls_[ca.xid] = &ca`
abbrev pub numbered : Rpcc → Unmarshall → Rpcc
numbered s rep = record s {
  xid = (s.xid + 1) % 2 ^ 32;
  calls = new_caller s.xid rep ∷ erase_call s.calls s.xid;
}

-- The first part of `call1`, under the mutex.
unfoldable pub begin_call : Rpcc → ℕ → Marshall → Unmarshall → Rpcc × Begun
unfolding req_header
begin_call s proc req rep =
    if is_unbound s proc
    then (s, refused bind_failure)
    else (if s.destroy_wait
        then (s, refused cancel_failure)
        else (numbered s rep, begun (req_header s proc) (pack_req_header req (req_header s proc))))

-- `xid_rep_done_ > x` and `x > xid_rep_done_`
unfoldable pub done_above : Option ℕ → ℕ → Bool
done_above none x = false
done_above (some d) x = ltb x d

unfoldable pub above_done : ℕ → Option ℕ → Bool
above_done x none = true
above_done x (some d) = ltb d x

-- The old request that is sent again, for a test of the server.
unfoldable pub take_forgot : Option DupReq → Option ℕ → List Bytes
unfolding done_above
take_forgot none d = []
take_forgot (some r) d = if done_above d r.xid then r.buf ∷ [] else []

unfoldable pub keep_dup : Option DupReq → Option ℕ → Option DupReq
unfolding done_above
keep_dup none d = none
keep_dup (some r) d = if done_above d r.xid then none else some r

-- A transmission over a connection: what is sent, in order.
unfoldable pub transmit : Rpcc → Marshall → Rpcc × List Bytes
unfolding take_forgot keep_dup
transmit s req =
    if s.reachable
    then (
      record s { dup_req = keep_dup s.dup_req s.xid_rep_done },
      take_forgot s.dup_req s.xid_rep_done ++ (cstr req ∷ []),
    )
    else (s, [])

-- The caller of the number gets the reply, unless it has one.
unfoldable pub finish_caller : Caller → Unmarshall → ReplyHeader → Caller
finish_caller ca rep h =
    if ca.done then ca else record ca { un = take_in rep; intret = h.ret; done = true }

unfoldable pub notify : List Caller → Unmarshall → ReplyHeader → List Caller
unfolding finish_caller
notify [] rep h = []
notify (c ∷ cs) rep h = if c.xid == h.xid then finish_caller c rep h ∷ cs else c ∷ notify cs rep h

unfoldable pub on_reply : Rpcc → Unmarshall × ReplyHeader → Rpcc
unfolding notify
on_reply s (rep, h) = if not rep.ok then s else record s {
  xid_rep_window = update_xid_rep s.xid_rep_window h.xid;
  calls = notify s.calls rep h;
}

unfoldable pub got_pdu : Rpcc → Bytes → Rpcc
unfolding on_reply
got_pdu s b = on_reply s (unpack_reply_header (new_unmarshall b))

-- The end of `call1`, when a reply, a timeout or `cancel` has ended the wait.
unfoldable pub end_call : Rpcc → ℕ → Rpcc
unfolding erase_call
end_call s xid = record s {
  calls = erase_call s.calls xid;
  xid_rep_window = update_xid_rep s.xid_rep_window xid;
}

unfoldable pub set_dup : Option DupReq → Marshall → ℕ → Option DupReq
unfolding cstr
set_dup none req xid = some (record { buf = cstr req; xid = xid })
set_dup (some r) req xid = some r

unfoldable pub note_dup : Rpcc → Caller → Marshall → ℕ → Rpcc
unfolding set_dup above_done
note_dup s ca req xid_rep =
    if ca.done && not (s.lossytest == 0)
    then record s {
      dup_req = set_dup s.dup_req req ca.xid;
      xid_rep_done = if above_done xid_rep s.xid_rep_done then some xid_rep else s.xid_rep_done;
    }
    else s

-- What `call1` returns.
abbrev pub status : Caller → ℕ
status ca = if ca.done then ca.intret else timeout_failure

unfoldable pub cancel_all : List Caller → List Caller
cancel_all [] = []
cancel_all (c ∷ cs) = record c { done = true; intret = cancel_failure } ∷ cancel_all cs

unfoldable pub is_waiting : List Caller → Bool
is_waiting [] = false
is_waiting (c ∷ cs) = true

-- `cancel`, up to its wait.
unfoldable pub cancel : Rpcc → Rpcc
unfolding cancel_all is_waiting
cancel s = record s {
  calls = cancel_all s.calls;
  destroy_wait = if is_waiting s.calls then true else s.destroy_wait;
}

-- The end of `bind`: the status of its call, and the value of `r`.
unfoldable pub bound : Rpcc → ℕ → ℕ → Rpcc
bound s ret r = if ret == 0 then record s { bind_done = true; srv_nonce = r } else s

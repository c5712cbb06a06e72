-- ===== src/Rpc/Server.antt =====
-- `rpcs` of rpc/rpc.h and rpc/rpc.cc. `dispatch` is two steps with the handler between them, since
-- other threads run meanwhile: it takes the request, and it saves and sends the reply. A
-- connection is a number; reference counts of connections are left out.
use lab_cse.Prelude.{
  ℕ, ◌+◌, ◌-◌, ◌%◌, ◌^◌, Bool, true, false, not, ◌&&◌, Option, none, some, [], ◌==◌, if◌then◌else◌,
}
use mathlib.Core.Option
use lab_cse.Rpc.Marshall.{Bytes, Marshall, new_marshall, cstr, ReqHeader, pack_reply_header}
use lab_cse.Rpc.Unmarshall.{Unmarshall, new_unmarshall, unpack_req_header}
use lab_cse.Rpc.ReplyWindow.{
  RpcState, fresh, inprogress, done, forgotten, Windows, checkduplicate_and_update, add_reply,
}
use lab_cse.Rpc.Calls.{atmostonce_failure, oldsrv_failure, is_negative}

-- A handler on the object `S`: `fn`.
abbrev pub Handler : Type 0 → Type 0
Handler S = S → Unmarshall → Marshall → Option (S × Marshall × ℕ)

pub record Rpcs (S : Type 0) : Type 0 where
  pub nonce : ℕ
  pub counting : ℕ
  pub curr_counts : ℕ
  pub counts : ℕ → ℕ
  pub reachable : Bool
  pub procs : ℕ → Option (Handler S)
  pub conns : ℕ → Option ℕ
  pub reply_window : Windows

-- What `dispatch` does before the handler runs.
pub data Taken : Type 0 where
  dropped : Taken
  aborted : Taken
  answered : Bytes → Taken
  running : ReqHeader → Unmarshall → Taken

-- A reply that has a header only.
unfoldable pub failure : Bytes → ℕ → ℕ → Bytes
unfolding cstr pack_reply_header
failure mem xid ret = cstr (pack_reply_header (new_marshall mem) (record { xid = xid; ret = ret }))

-- The latest good connection to the client: `older c d` is `c->compare(d) < 0`.
unfoldable pub latest : (ℕ → ℕ → Bool) → ℕ → Option ℕ → ℕ
latest older c none = c
latest older c (some d) = if older d c then c else d

module _ {S : Type 0} where
  -- The constructor, before the handler for `bind` is registered and the threads are started.
  abbrev pub new_rpcs : ℕ → ℕ → Rpcs S
  new_rpcs nonce count = record {
    nonce = nonce;
    counting = count;
    curr_counts = count;
    counts = λ _. 0;
    reachable = true;
    procs = λ _. none;
    conns = λ _. none;
    reply_window = λ _. [];
  }

  unfoldable pub is_registered : Option (Handler S) → Bool
  is_registered none = false
  is_registered (some h) = true

  -- `reg1`; `none` where the number is registered already.
  unfoldable pub reg1 : Rpcs S → ℕ → Handler S → Option (Rpcs S)
  unfolding is_registered
  reg1 s proc h =
      if is_registered (s.procs proc)
      then none
      else some (record s { procs = λ p. if p == proc then some h else s.procs p })

  -- `got_pdu`: whether the request is passed on to a thread that runs `dispatch`.
  abbrev pub got_pdu : Rpcs S → Bool
  got_pdu s = s.reachable

  -- `updatestat`; what it prints is left out. `curr_counts_` is an `int`.
  unfoldable pub updatestat : Rpcs S → ℕ → Rpcs S
  updatestat s proc =
      let curr = (s.curr_counts + 2 ^ 32 - 1) % 2 ^ 32 in
      record s {
        counts = λ p. if p == proc then s.counts p + 1 else s.counts p;
        curr_counts = if curr == 0 then s.counting else curr;
      }

  unfoldable pub save_conn : (ℕ → ℕ → Bool) → Rpcs S → ℕ → ℕ → Rpcs S
  unfolding latest
  save_conn older s clt c = record s {
    conns = λ i. if i == clt then some (latest older c (s.conns clt)) else s.conns i;
  }

  unfoldable pub counted : Rpcs S → ℕ → Rpcs S
  unfolding updatestat
  counted s proc = if s.counting == 0 then s else updatestat s proc

  -- The switch, up to the call of the handler.
  unfoldable pub on_state : Bytes → Rpcs S → ReqHeader → Unmarshall → RpcState → Rpcs S × Taken
  unfolding counted failure
  on_state mem s h req fresh = (counted s h.proc, running h req)
  on_state mem s h req inprogress = (s, dropped)
  on_state mem s h req (done b1) = (s, answered b1)
  on_state mem s h req forgotten = (s, answered (failure mem h.xid atmostonce_failure))

  unfoldable pub checked :
      Bytes → (ℕ → ℕ → Bool) → Rpcs S → ℕ → ReqHeader → Unmarshall → Rpcs S × Taken
  unfolding on_state save_conn
  checked mem older s c h req =
      let s1 = save_conn older s h.clt_nonce c in
      let (w, state) = checkduplicate_and_update s1.reply_window h.clt_nonce h.xid h.xid_rep in
      if h.clt_nonce == 0
      then on_state mem s h req fresh
      else on_state mem (record s1 { reply_window = w }) h req state

  unfoldable pub on_header :
      Bytes → (ℕ → ℕ → Bool) → Rpcs S → ℕ → Unmarshall × ReqHeader → Rpcs S × Taken
  unfolding checked is_registered failure
  on_header mem older s c (req, h) =
      if not req.ok
      then (s, dropped)
      else (if not (h.srv_nonce == 0) && not (h.srv_nonce == s.nonce)
          then (s, answered (failure mem h.xid oldsrv_failure))
          else (if not (is_registered (s.procs h.proc))
              then (s, aborted)
              else checked mem older s c h req))

  -- `mem` is the memory of the reply, `c` the connection that the request `b` came by.
  unfoldable pub take_request : Bytes → (ℕ → ℕ → Bool) → Rpcs S → ℕ → Bytes → Rpcs S × Taken
  unfolding on_header
  take_request mem older s c b = on_header mem older s c (unpack_req_header (new_unmarshall b))

  -- The connection that the reply goes to. `none` is a null pointer, which is dereferenced, where
  -- the connection of a client with nonce 0 is dead.
  unfoldable pub reply_conn : (ℕ → Bool) → Rpcs S → ℕ → ℕ → Option ℕ
  reply_conn isdead s c clt = if isdead c then s.conns clt else some c

  -- After the handler: the reply is saved, and what is sent and where. `none` is a failed VERIFY
  -- or a null pointer.
  unfoldable pub send_reply :
      (ℕ → Bool) → Rpcs S → ℕ → ReqHeader → Marshall → ℕ → Option (Rpcs S × ℕ × Bytes)
  unfolding reply_conn
  send_reply isdead s c h rep ret =
      let b1 = cstr (pack_reply_header rep (record { xid = h.xid; ret = ret })) in
      let s1 =
        if h.clt_nonce == 0
        then s
        else record s { reply_window = add_reply s.reply_window h.clt_nonce h.xid b1 } in
      if is_negative ret
      then none
      else Option.map (λ d. (s1, d, b1)) (reply_conn isdead s1 c h.clt_nonce)

  unfoldable pub run_handler :
      Option (Handler S) → S → Unmarshall → Marshall → Option (S × Marshall × ℕ)
  run_handler none sob req rep = none
  run_handler (some f) sob req rep = f sob req rep

  unfoldable pub sent : S → Option (Rpcs S × ℕ × Bytes) → Option (Rpcs S × S × Option (ℕ × Bytes))
  sent sob none = none
  sent sob (some (s, c, b)) = some (s, sob, some (c, b))

  unfoldable pub after_handler :
      (ℕ → Bool)
      → Rpcs S
      → ℕ
      → ReqHeader
      → Option (S × Marshall × ℕ)
      → Option (Rpcs S × S × Option (ℕ × Bytes))
  unfolding send_reply sent
  after_handler isdead s c h none = none
  after_handler isdead s c h (some (sob, rep, ret)) = sent sob (send_reply isdead s c h rep ret)

  unfoldable pub finish_request :
      Bytes → (ℕ → Bool) → S → ℕ → Rpcs S × Taken → Option (Rpcs S × S × Option (ℕ × Bytes))
  unfolding run_handler after_handler
  finish_request mem isdead sob c (s, dropped) = some (s, sob, none)
  finish_request mem isdead sob c (s, aborted) = none
  finish_request mem isdead sob c (s, answered b) = some (s, sob, some (c, b))
  finish_request mem isdead sob c (s, running h req) =
      after_handler isdead s c h (run_handler (s.procs h.proc) sob req (new_marshall mem))

  -- `dispatch` with no other thread in between: the server, the object, and what is sent to which
  -- connection.
  unfoldable pub dispatch :
      Bytes
      → (ℕ → ℕ → Bool)
      → (ℕ → Bool)
      → Rpcs S
      → S
      → ℕ
      → Bytes
      → Option (Rpcs S × S × Option (ℕ × Bytes))
  unfolding take_request finish_request
  dispatch mem older isdead s sob c b =
      finish_request mem isdead sob c (take_request mem older s c b)

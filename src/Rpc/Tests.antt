-- ===== src/Rpc/Tests.antt =====
-- Runs of the RPC library.
use lab_cse.Prelude.{
  ◌||◌, ℕ, ◌+◌, ◌≡◌, refl, true, false, none, some, List, [], ◌∷◌, arith, ◌==◌, if◌then◌else◌,
  length, map, replicate,
}
use lab_cse.Rpc.Marshall
use lab_cse.Rpc.Marshall.{
  Bytes, Marshall, new_marshall, cstr, ReqHeader, ReplyHeader, pack_req_header, pack_reply_header,
  pack, grow, overwrite,
}
use lab_cse.Rpc.Unmarshall
use lab_cse.Rpc.Unmarshall.{
  Unmarshall, new_unmarshall, take_in, unpack, unpack_req_header, unpack_reply_header,
}
use lab_cse.Rpc.Values.{Value, of_u32, of_str, type_of, write, write_all}
use lab_cse.Rpc.Calls.{request, call_m, Method, fn}
use lab_cse.Rpc.Delivery.{IsReqHeader, delivered}
use lab_cse.Rpc.EndToEnd.{fn-request}
use lab_cse.Rpc.ReplyWindow.{
  checkduplicate_and_update, check, find_reply, on_found, insert_reply, erase_old,
}
use lab_cse.Rpc.AtMostOnce.{is_fresh}
use lab_cse.Rpc.Server.{Handler, Rpcs, new_rpcs}
use lab_cse.Rpc.XidWindow.{update_xid_rep, insert_xid, compress, compress_from, pop_before}
use lab_cse.Rpc.Remote.{Buffers, IsBuffers, remote, reply_message, remote-method}
use lab_cse.Rpc.Acked.{elem}
use lab_cse.Rpc.AckedSet.{acked, replied, acked-replied}
use lab_cse.Rpc.Client.{
  Rpcc, Caller, new_caller, new_rpcc, find_call, begin_call, bound, got_pdu, on_reply, req_header,
  status,
}
use lab_cse.Rpc.Net.{Net, Runs, start_all, call, deliver, answer, end_bind, newest, change, IsClaim}
use lab_cse.Rpc.System.{Sent-IsClaim, handed_once}
use lab_cse.Rpc.Timespec.{Timespec, add_timespec, IsSum, add_timespec-IsSum}
use lab_cse.Rpc.Replies.{call-reply}

-- Memory that `malloc` may give.
abbrev mem : Bytes
mem = replicate 40 7

abbrev sz : Bytes
sz = 0 ∷ 0 ∷ 0 ∷ 30 ∷ []

-- `put`-like: a number and a string.
abbrev args : List Value
args = of_u32 2 ∷ of_str (104 ∷ 105 ∷ []) ∷ []

abbrev header : ReqHeader
header = record { xid = 3; proc = 24577; clt_nonce = 9; srv_nonce = 0; xid_rep = 2 }

header_lem : IsReqHeader header
header_lem = record {
  xid = omega arith;
  proc = omega arith;
  clt_nonce = omega arith;
  srv_nonce = omega arith;
  xid_rep = omega arith;
}

-- The object counts its calls; the method returns 5.
abbrev counter : Method ℕ
counter n vs = (n + 1, 0, of_u32 5)

request_size : length (delivered sz (pack_req_header (request mem args) header)) ≡ 34
unfolding request write_all write pack Marshall.rawbyte Marshall.rawbytes grow overwrite
    pack_req_header cstr
request_size = refl

fn-request_example :
    (let u =
        unpack_req_header
          (new_unmarshall (delivered sz (pack_req_header (request mem args) header))) in
      (u.1 ≡ header)
      × (fn (map type_of args) counter 0 u.0 (new_marshall mem)
          ≡ some (1, write (new_marshall mem) (of_u32 5), 0)))
unfolding request
fn-request_example =
    fn-request counter 0 args header mem sz (new_marshall mem) (omega arith, (tt, tt)) header_lem
      (omega arith) refl (omega (arith, request_size))

-- A client with a call that waits for number 1.
abbrev waits : Rpcc
waits = record (new_rpcc 9 0 true) { xid = 2; calls = new_caller 1 (new_unmarshall []) ∷ [] }

abbrev reply_header : ReplyHeader
reply_header = record { xid = 1; ret = 0 }

call-reply_example :
    (c1 : Caller) × (find_call
        (got_pdu waits (
          delivered sz
            (pack_reply_header (write (new_marshall mem) (of_u32 5)) reply_header))).calls
        1
      ≡ some c1)
    × (call_m (status c1) c1.un (type_of (of_u32 5)) (of_u32 0) ≡ some (0, of_u32 5))
unfolding find_call cstr pack_reply_header write
call-reply_example =
    call-reply waits (new_caller 1 (new_unmarshall [])) reply_header (of_u32 5) (of_u32 0) mem sz
      refl refl (omega arith) (omega arith) (omega arith) (omega arith) refl (omega arith)

-- The messages of two replies to number 1: status 0, and status 3.
abbrev message : ℕ → Bytes
message ret = 0 ∷ 0 ∷ 0 ∷ 0 ∷ 0 ∷ 0 ∷ 0 ∷ 1 ∷ 0 ∷ 0 ∷ 0 ∷ ret ∷ []

add_timespec-IsSum_example :
    (t : Timespec) × (add_timespec (record { tv_sec = 7; tv_nsec = 600000000 }) 1500 ≡ some t)
    × IsSum (record { tv_sec = 7; tv_nsec = 600000000 }) 1500 t
add_timespec-IsSum_example =
    add_timespec-IsSum (record { tv_sec = 7; tv_nsec = 600000000 }) 1500 (omega arith)

-- A server with one handler, number 4; the request is number 1 of client 9.
abbrev answers : Handler ℕ
answers n u ret = some (n + 1, write ret (of_u32 n), 0)

abbrev server : Rpcs ℕ
server = record (new_rpcs 6 0) { procs = λ p. if p == 4 then some answers else none }

abbrev first : ReqHeader
first = record { xid = 1; proc = 4; clt_nonce = 9; srv_nonce = 6; xid_rep = 0 }

abbrev first_bytes : Bytes
first_bytes =
    0 ∷ 0 ∷ 0 ∷ 0 ∷ 0 ∷ 0 ∷ 0 ∷ 1 ∷ 0 ∷ 0 ∷ 0 ∷ 4 ∷ 0 ∷ 0 ∷ 0 ∷ 9 ∷ 0 ∷ 0 ∷ 0 ∷ 6 ∷ 0 ∷ 0 ∷ 0 ∷ 0
    ∷ []

-- Client 9 binds and makes a call, and the call is delivered.
abbrev clients : ℕ → Rpcc
clients c = new_rpcc c 0 true

abbrev empty : Unmarshall
empty = new_unmarshall []

abbrev all_new : Net
all_new = record { clients = clients; over = λ _. []; sent = []; windows = λ _. []; run = [] }

abbrev begins : Runs all_new
begins = start_all clients (λ c. refl)

abbrev binds : ReqHeader
binds = record { xid = 1; proc = 1; clt_nonce = 9; srv_nonce = 0; xid_rep = 0 }

-- Client 9 has sent `binds`.
abbrev bind_sent : Net
unfolding begin_call req_header
bind_sent = record all_new {
  clients = change clients 9 (begin_call (clients 9) 1 (new_marshall mem) empty).0;
  sent = binds ∷ [];
}

abbrev runs_bind : Runs bind_sent
unfolding bind_sent begin_call req_header
runs_bind = call begins 9 1 (new_marshall mem) empty (omega arith)

abbrev bind_run : Net
unfolding bind_sent checkduplicate_and_update
bind_run = record bind_sent {
  windows = (checkduplicate_and_update (λ _. []) 9 1 0).0;
  run = record { clt_nonce = 9; xid = 1 } ∷ [];
}

abbrev runs_run : Runs bind_run
unfolding bind_run bind_sent checkduplicate_and_update check find_reply on_found insert_reply
    erase_old
runs_run = deliver runs_bind binds newest refl

handed_once_example : is_fresh (checkduplicate_and_update bind_run.windows 9 1 0).1 ≡ false
unfolding bind_run bind_sent
handed_once_example = handed_once runs_run binds newest refl refl

-- Client 9 gets the reply to `binds`, 6, and makes a call, which claims number 1.
abbrev bind_over : Net
unfolding bind_run bind_sent
bind_over = record bind_run {
  clients = change bind_run.clients 9 (got_pdu (bind_run.clients 9) (message 0));
  over = change bind_run.over 9 (1 ∷ []);
}

abbrev runs_over : Runs bind_over
unfolding bind_over bind_run bind_sent begin_call unpack_reply_header unpack Unmarshall.rawbyte
runs_over = answer runs_run 9 (message 0) (omega arith)

abbrev is_bound : Net
unfolding bind_over
is_bound = record bind_over {
  clients = change bind_over.clients 9 (bound (bind_over.clients 9) 0 6);
}

abbrev runs_bound : Runs is_bound
unfolding is_bound bind_over
runs_bound = end_bind runs_over 9 0 6

abbrev second : ReqHeader
second = record { xid = 2; proc = 4; clt_nonce = 9; srv_nonce = 6; xid_rep = 1 }

abbrev call_sent : Net
unfolding is_bound begin_call
call_sent = record is_bound {
  clients =
      change is_bound.clients 9 (begin_call (is_bound.clients 9) 4 (new_marshall mem) empty).0;
  sent = second ∷ binds ∷ [];
}

abbrev runs_call : Runs call_sent
unfolding call_sent is_bound bind_over bind_run bind_sent begin_call req_header bound got_pdu
    on_reply unpack_reply_header unpack Unmarshall.rawbyte update_xid_rep insert_xid compress
    compress_from pop_before
runs_call = call runs_bound 9 4 (new_marshall mem) empty (omega arith)

Sent-IsClaim_example : IsClaim call_sent.over second
unfolding call_sent is_bound bind_over bind_run bind_sent
Sent-IsClaim_example = Sent-IsClaim runs_call second newest

-- After the replies 1 and 3, the window claims these two and 0.
acked-replied_example : acked (replied (3 ∷ 1 ∷ [])) 2 ≡ ((2 == 0) || elem 2 (3 ∷ 1 ∷ []))
acked-replied_example = acked-replied (3 ∷ 1 ∷ []) 2

abbrev buffers : Buffers
buffers = record { request_mem = mem; request_sz = sz; reply_mem = mem; reply_sz = sz }

buffers-IsBuffers : IsBuffers buffers
buffers-IsBuffers = record {
  request_room = omega arith;
  request_front = refl;
  reply_room = omega arith;
  reply_front = refl;
}

reply_size : length (reply_message buffers header 0 (of_u32 5)) ≡ 28
unfolding write pack Marshall.rawbyte grow overwrite pack_reply_header cstr
reply_size = refl

remote-method_example :
    remote buffers header (map type_of args) counter 0 args (type_of (of_u32 5)) (of_u32 0)
    ≡ some (1, 0, of_u32 5)
remote-method_example =
    remote-method counter 0 args (of_u32 0) header buffers buffers-IsBuffers header_lem
      (omega arith, (tt, tt)) (omega arith) (omega arith) (omega (arith, request_size))
      (omega (arith, reply_size))

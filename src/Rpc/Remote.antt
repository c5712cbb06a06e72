-- ===== src/Rpc/Remote.antt =====
-- A call over the network: the request as the handler meets it, and its reply as the caller meets it.
use lab_cse.Prelude.{ℕ, ◌^◌, ◌<◌, ◌≤◌, ◌≡◌, ap, ◌∙◌, Option, none, some, List, length, map}
use lab_cse.Rpc.Marshall.{
  Bytes, Marshall, new_marshall, rpc_header_sz, ReqHeader, ReplyHeader, pack_req_header,
  pack_reply_header,
}
use lab_cse.Rpc.Unmarshall.{new_unmarshall, take_in, unpack_req_header, unpack_reply_header}
use lab_cse.Rpc.Values.{Ty, Value, type_of, write}
use lab_cse.Rpc.Reading.{Fits, AllFit}
use lab_cse.Rpc.Calls.{request, call_m, Method, fn}
use lab_cse.Rpc.Delivery.{delivered, IsReqHeader}
use lab_cse.Rpc.EndToEnd.{fn-request, call_m-reply}

-- The memory that the two messages are written to, and the four bytes at the front of each that the
-- connection fills in.
pub record Buffers : Type 0 where
  pub request_mem : Bytes
  pub request_sz : Bytes
  pub reply_mem : Bytes
  pub reply_sz : Bytes

-- The messages of a call with these arguments and this result.
abbrev pub request_message : Buffers → ReqHeader → List Value → Bytes
request_message b h args = delivered b.request_sz (pack_req_header (request b.request_mem args) h)

abbrev pub reply_header : ReqHeader → ℕ → ReplyHeader
reply_header h ret = record { xid = h.xid; ret = ret }

abbrev pub message_of : Buffers → ReplyHeader → Marshall → Bytes
message_of b h rep = delivered b.reply_sz (pack_reply_header rep h)

abbrev pub reply_message : Buffers → ReqHeader → ℕ → Value → Bytes
reply_message b h ret r = message_of b (reply_header h ret) (write (new_marshall b.reply_mem) r)

abbrev with_object : {S : Type 0} → S → Option (ℕ × Value) → Option (S × ℕ × Value)
with_object sob none = none
with_object sob (some (ret, r)) = some (sob, ret, r)

-- The caller takes the reply that the handler has written.
unfoldable pub replied_to :
    {S : Type 0}
    → Buffers
    → ReqHeader
    → Ty
    → Value
    → Option (S × Marshall × ℕ)
    → Option (S × ℕ × Value)
replied_to b h ty old none = none
replied_to b h ty old (some (sob, rep, ret)) =
    let u = unpack_reply_header (new_unmarshall (message_of b (reply_header h ret) rep)) in
    with_object sob (call_m u.1.ret (take_in u.0) ty old)

-- A call of a method of the object `sob`: the new object, the status and the value of `r`, which held
-- `old` before.
unfoldable pub remote :
    {S : Type 0}
    → Buffers
    → ReqHeader
    → List Ty
    → Method S
    → S
    → List Value
    → Ty
    → Value
    → Option (S × ℕ × Value)
unfolding replied_to
remote b h types meth sob args ty old =
    let u = unpack_req_header (new_unmarshall (request_message b h args)) in
    replied_to b h ty old (fn types meth sob u.0 (new_marshall b.reply_mem))

-- The buffers have room for a header, and the lengths fit their four bytes.
pub record IsBuffers (b : Buffers) : Type 0 where
  pub request_room : rpc_header_sz ≤ length b.request_mem
  pub request_front : length b.request_sz ≡ 4
  pub reply_room : rpc_header_sz ≤ length b.reply_mem
  pub reply_front : length b.reply_sz ≡ 4

-- Let the arguments and the value of the result fit their types, the status of the result not be
-- negative, the fields of the header fit 32 bits, and both messages be shorter than 2 ^ 31. Then a
-- call over the network gives what the method itself gives on these arguments: the same object,
-- status and value.
pub remote-method :
    {S : Type 0} (meth : Method S) (sob : S) (args : List Value) (old : Value) (h : ReqHeader)
    (b : Buffers)
    → IsBuffers b
    → IsReqHeader h
    → AllFit args
    → (meth sob args).1 < 2 ^ 31
    → Fits (meth sob args).2
    → length (request_message b h args) < 2 ^ 31
    → length (reply_message b h (meth sob args).1 (meth sob args).2) < 2 ^ 31
    → remote b h (map type_of args) meth sob args (type_of (meth sob args).2) old
      ≡ some (meth sob args)
unfolding remote replied_to
remote-method meth sob args old h b is head fit status fits short short2 =
    let (sob1, ret, r) = meth sob args in
    let (_, served) =
      fn-request meth sob args h b.request_mem b.request_sz (new_marshall b.reply_mem) fit head
        is.request_room is.request_front short in
    let (same, _, called) =
      call_m-reply (reply_header h ret) r old b.reply_mem b.reply_sz head.xid status fits
        is.reply_room is.reply_front short2 in
    ap (replied_to b h (type_of r) old) served
    ∙ ap (with_object sob1) (
        ap
          (λ g.
            call_m g.ret
              (take_in (unpack_reply_header (new_unmarshall (reply_message b h ret r))).0)
              (type_of r) old)
          same
        ∙ called)

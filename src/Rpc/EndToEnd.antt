-- ===== src/Rpc/EndToEnd.antt =====
-- A request as the handler meets it, and a reply as the caller meets it.
use mathlib.Core.List.{append_assoc, append-nil}
use lab_cse.Prelude.{
  ℕ, ◌^◌, ◌<◌, ◌≤◌, ◌≡◌, refl, ap, sym, subst, ◌∙◌, true, false, some, List, [], ◌++◌, arith, leb,
  length, map,
}
use lab_cse.Rpc.Marshall.{
  Bytes, Marshall, new_marshall, rpc_header_sz, ReqHeader, ReplyHeader, pack_req_header,
  pack_reply_header,
}
use lab_cse.Rpc.Unmarshall.{
  Unmarshall, new_unmarshall, take_in, unpack_req_header, unpack_reply_header,
}
use lab_cse.Rpc.Values.{Value, type_of, write}
use lab_cse.Rpc.Written.{bytes_of, encode, encode_all, write-Writes}
use lab_cse.Rpc.Headers.{encode_req, encode_reply, pack_req_header-Headed, pack_reply_header-Headed}
use lab_cse.Rpc.Reading.{Fits, AllFit, Ahead, advance, unpack-Ahead, read-Ahead, read_all-Ahead}
use lab_cse.Rpc.Calls.{request, call_m, is_negative, finish_call, Method, run_method, fn}
use lab_cse.Rpc.Delivery.{
  delivered, gap, IsReqHeader, unpack_req_header-Ahead, next-Ahead, drop-Headed, behind_size,
  behind_header, length-encode_req, length-encode_reply, length-gap, request-Writes, new-IsValid,
  okdone-advance,
}

-- Where exactly the arguments are left, the method is run on them.
fn-Ahead :
    {S : Type 0} (meth : Method S) (sob : S) (vs : List Value) (u : Unmarshall) (ret : Marshall)
    → AllFit vs
    → Ahead u (encode_all vs)
    → fn (map type_of vs) meth sob u ret
      ≡ some ((meth sob vs).0, write ret (meth sob vs).2, (meth sob vs).1)
unfolding fn run_method
fn-Ahead meth sob vs u ret f a =
    let all : Ahead u (encode_all vs ++ []) = subst (λ p. Ahead u p) (sym (append-nil _)) a in
    ap (run_method meth sob ret) (read_all-Ahead vs u [] f all)
    ∙ rw (okdone-advance u (encode_all vs) a) refl

-- Let the arguments fit their types and the fields of the header 32 bits, and let the message be
-- shorter than 2 ^ 31. When the request of a call has its header packed and is delivered, with
-- its first four bytes filled in, then the server unpacks the same header, and the handler runs
-- the method on the same arguments, and writes its result to the reply.
pub fn-request :
    {S : Type 0} (meth : Method S) (sob : S) (vs : List Value) (h : ReqHeader) (mem sz : Bytes)
    (ret : Marshall)
    → AllFit vs
    → IsReqHeader h
    → rpc_header_sz ≤ length mem
    → length sz ≡ 4
    → length (delivered sz (pack_req_header (request mem vs) h)) < 2 ^ 31
    → (let u =
          unpack_req_header (new_unmarshall (delivered sz (pack_req_header (request mem vs) h))) in
        (u.1 ≡ h)
        × (fn (map type_of vs) meth sob u.0 ret
            ≡ some ((meth sob vs).0, write ret (meth sob vs).2, (meth sob vs).1)))
fn-request meth sob vs h mem sz ret f i mem_size e lim =
    let w = request-Writes mem vs mem_size in
    let m1 = request mem vs in
    let q = encode_req h in
    let p = encode_all vs in
    let n = length-encode_req h in
    let k = pack_req_header-Headed m1 h (omega (arith, w.ind, w.put.room)) (omega (arith, w.ind)) in
    let g = length-gap mem q mem_size (omega (arith, n)) in
    let same : delivered sz (pack_req_header m1 h) ≡ sz ++ (q ++ (gap mem q ++ p)) =
      ap (λ t. sz ++ t)
        (drop-Headed m1 (pack_req_header m1 h) mem p q mem_size (omega (arith, n)) w k) in
    let short : length (sz ++ (q ++ (gap mem q ++ p))) < 2 ^ 31 = rw (← same) lim in
    let buf = sz ++ (q ++ (gap mem q ++ p)) in
    let unpacked =
      unpack_req_header-Ahead (new_unmarshall buf) h (gap mem q ++ p) i
        (behind_size sz q (gap mem q ++ p) e short) in
    rw (same, unpacked)
      (
        refl,
        fn-Ahead meth sob vs (record (new_unmarshall buf) { ind = rpc_header_sz }) ret f
            (behind_header sz q (gap mem q) p e g short),
      )

unpack_reply_header-Ahead :
    (u : Unmarshall) (h : ReplyHeader) (rest : Bytes)
    → h.xid < 2 ^ 32
    → h.ret < 2 ^ 32
    → Ahead (record u { ind = 4 }) (encode_reply h ++ rest)
    → unpack_reply_header u ≡ (record u { ind = rpc_header_sz }, h)
unfolding unpack_reply_header encode_reply
unpack_reply_header-Ahead u h rest x r a =
    let u0 : Unmarshall = record u { ind = 4 } in
    let a0 = subst (λ p. Ahead u0 p) (append_assoc (bytes_of h.xid) (bytes_of h.ret) rest) a in
    rw
      (
        unpack-Ahead u0 h.xid (bytes_of h.ret ++ rest) x a0,
        unpack-Ahead (advance u0 4) h.ret rest r (next-Ahead u0 h.xid (bytes_of h.ret ++ rest) a0),
      )
      refl

call_m-Ahead :
    (intret : ℕ) (u : Unmarshall) (r old : Value)
    → intret < 2 ^ 31
    → Fits r
    → Ahead u (encode r)
    → call_m intret u (type_of r) old ≡ some (intret, r)
unfolding call_m finish_call
call_m-Ahead intret u r old n f a =
    let good : is_negative intret ≡ false = ground arith in
    let all : Ahead u (encode r ++ []) = subst (λ p. Ahead u p) (sym (append-nil _)) a in
    rw (good, read-Ahead u r [] f all) (rw (okdone-advance u (encode r) a) refl)

over : (m n : ℕ) → m ≤ n → leb m n ≡ true
over m n h = ground arith

-- Let the value that a method returns fit its type, and let its status not be negative. When it
-- is written to a reply, the reply header is packed and the message is delivered, shorter than
-- 2 ^ 31, then the client unpacks the same header without an error, and `call_m` returns that status and value.
pub call_m-reply :
    (h : ReplyHeader) (r old : Value) (mem sz : Bytes)
    → h.xid < 2 ^ 32
    → h.ret < 2 ^ 31
    → Fits r
    → rpc_header_sz ≤ length mem
    → length sz ≡ 4
    → length (delivered sz (pack_reply_header (write (new_marshall mem) r) h)) < 2 ^ 31
    → (let u =
          unpack_reply_header
            (new_unmarshall (delivered sz (pack_reply_header (write (new_marshall mem) r) h))) in
        (u.1 ≡ h)
        × (u.0.ok ≡ true)
        × (call_m h.ret (take_in u.0) (type_of r) old ≡ some (h.ret, r)))
call_m-reply h r old mem sz x good f mem_size e lim =
    let m1 = write (new_marshall mem) r in
    let w = write-Writes (new_marshall mem) r (new-IsValid mem mem_size) in
    let q = encode_reply h in
    let p = encode r in
    let n = length-encode_reply h in
    let k =
      pack_reply_header-Headed m1 h (omega (arith, w.ind, w.put.room)) (omega (arith, w.ind)) in
    let g = length-gap mem q mem_size (omega (arith, n)) in
    let same : delivered sz (pack_reply_header m1 h) ≡ sz ++ (q ++ (gap mem q ++ p)) =
      ap (λ t. sz ++ t)
        (drop-Headed m1 (pack_reply_header m1 h) mem p q mem_size (omega (arith, n)) w k) in
    let buf = sz ++ (q ++ (gap mem q ++ p)) in
    let short : length buf < 2 ^ 31 = rw (← same) lim in
    let unpacked =
      unpack_reply_header-Ahead (new_unmarshall buf) h (gap mem q ++ p) x (omega arith)
        (behind_size sz q (gap mem q ++ p) e short) in
    let b = behind_header sz q (gap mem q) p e g short in
    let large : leb rpc_header_sz (length buf) ≡ true =
      over rpc_header_sz (length buf) (omega (arith, b.size)) in
    let taken : take_in (record (new_unmarshall buf) { ind = rpc_header_sz })
        ≡ record (new_unmarshall buf) { ind = rpc_header_sz } =
      ap (λ o. record (new_unmarshall buf) { ind = rpc_header_sz; ok = o }) large in
    rw (same, unpacked)
      (
        refl,
        refl,
        ap (λ u. call_m h.ret u (type_of r) old) taken
            ∙ call_m-Ahead h.ret (record (new_unmarshall buf) { ind = rpc_header_sz }) r old good f
                b,
      )

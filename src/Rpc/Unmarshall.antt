-- ===== src/Rpc/Unmarshall.antt =====
-- `unmarshall` of rpc/marshall.h and rpc/rpc.cc. `buf` has `_sz` bytes.
use lab_cse.Prelude.{
  ℕ, ◌+◌, ◌-◌, ◌*◌, ◌%◌, ◌^◌, Bool, true, false, ◌&&◌, Option, none, some, ◌++◌, ltb, leb, ◌==◌,
  if◌then◌else◌, length, take, drop, get_or,
}
use lab_cse.Rpc.Marshall.{Bytes, ReqHeader, ReplyHeader, rpc_header_sz, rpc_sz_t_size}

pub record Unmarshall : Type 0 where
  pub buf : Bytes
  pub ind : ℕ
  pub ok : Bool

-- `unmarshall(char *b, int sz)`
abbrev pub new_unmarshall : Bytes → Unmarshall
new_unmarshall b = record { buf = b; ind = 0; ok = true }

-- `take_content`; `mem` is the memory in front of the content.
abbrev pub take_content : Bytes → Bytes → Unmarshall
take_content mem s = record { buf = mem ++ s; ind = rpc_header_sz; ok = true }

-- `take_in`
abbrev pub take_in : Unmarshall → Unmarshall
take_in another = record {
  buf = another.buf;
  ind = rpc_header_sz;
  ok = leb rpc_header_sz (length another.buf);
}

unfoldable pub okdone : Unmarshall → Bool
okdone u = u.ok && (u.ind == length u.buf)

-- A `char` as an `unsigned int`.
abbrev pub sign_extend8 : ℕ → ℕ
sign_extend8 c = if ltb c 128 then c else c + (2 ^ 32 - 256)

unfoldable pub rawbyte : Unmarshall → Unmarshall × ℕ
rawbyte u =
    if leb (length u.buf) u.ind
    then (record u { ok = false }, 0)
    else (record u { ind = u.ind + 1 }, sign_extend8 (get_or u.buf u.ind 0))

-- `unpack`; also `>>` for `unsigned int` and `int`. The bytes have no bit in common, so that `|=`
-- is a sum.
unfoldable pub unpack : Unmarshall → Unmarshall × ℕ
unfolding rawbyte
unpack u =
    let (u1, a) = rawbyte u in
    let (u2, b) = rawbyte u1 in
    let (u3, c) = rawbyte u2 in
    let (u4, d) = rawbyte u3 in
    (u4, a % 256 * 2 ^ 24 + b % 256 * 2 ^ 16 + c % 256 * 2 ^ 8 + d % 256)

-- `none` where the sum `_ind + n`, which is unsigned, wraps and the string would be read from
-- outside the buffer.
unfoldable pub rawbytes : Unmarshall → ℕ → Bytes → Option (Unmarshall × Bytes)
rawbytes u n ss =
    if ltb (length u.buf) ((u.ind + n) % 2 ^ 32)
    then some (record u { ok = false }, ss)
    else (if ltb (length u.buf) (u.ind + n)
        then none
        else some (record u { ind = u.ind + n }, take n (drop u.ind u.buf)))

unfoldable pub unpack_req_header : Unmarshall → Unmarshall × ReqHeader
unpack_req_header u =
    let (u1, xid) = unpack (record u { ind = rpc_sz_t_size }) in
    let (u2, proc) = unpack u1 in
    let (u3, clt_nonce) = unpack u2 in
    let (u4, srv_nonce) = unpack u3 in
    let (u5, xid_rep) = unpack u4 in
    (
      record u5 { ind = rpc_header_sz },
      record {
        xid = xid;
        proc = proc;
        clt_nonce = clt_nonce;
        srv_nonce = srv_nonce;
        xid_rep = xid_rep;
      },
    )

unfoldable pub unpack_reply_header : Unmarshall → Unmarshall × ReplyHeader
unpack_reply_header u =
    let (u1, xid) = unpack (record u { ind = rpc_sz_t_size }) in
    let (u2, ret) = unpack u1 in
    (record u2 { ind = rpc_header_sz }, record { xid = xid; ret = ret })

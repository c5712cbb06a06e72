-- ===== src/Rpc/Marshall.antt =====
-- `marshall` of rpc/marshall.h and rpc/rpc.cc. `buf` is the memory of `_buf`, so that its length is
-- `_capa`; memory that `realloc` adds is 0 here, and nothing reads it before it is written. An
-- `int` is its bit pattern, below 2 ^ 32. A failed `malloc` or `realloc` is left out.
use lab_cse.Prelude.{
  ℕ, ◌+◌, ◌-◌, ◌*◌, ◌/◌, ◌%◌, ◌^◌, List, [], ◌∷◌, ◌++◌, ltb, leb, if◌then◌else◌, length, take, drop,
  replicate,
}

abbrev pub Bytes : Type 0
Bytes = List ℕ

-- `RPC_HEADER_SZ`: the larger header has 20 bytes, and 4 are for the size. `RPC_CHECKSUMMING` is
-- not defined.
abbrev pub rpc_header_sz : ℕ
rpc_header_sz = 24

abbrev pub default_rpc_sz : ℕ
default_rpc_sz = 1024

abbrev pub rpc_sz_t_size : ℕ
rpc_sz_t_size = 4

pub record Marshall : Type 0 where
  pub buf : Bytes
  pub ind : ℕ

-- The constructor, with the memory that `malloc` gives.
abbrev pub new_marshall : Bytes → Marshall
new_marshall mem = record { buf = mem; ind = rpc_header_sz }

-- `realloc(_buf, capa)` where the memory grows.
unfoldable pub grow : ℕ → Bytes → Bytes
grow capa buf = buf ++ replicate (capa - length buf) 0

-- `memcpy(buf + i, p, n)`
unfoldable pub overwrite : Bytes → ℕ → Bytes → Bytes
overwrite buf i p = take i buf ++ (p ++ drop (i + length p) buf)

unfoldable pub rawbyte : Marshall → ℕ → Marshall
unfolding grow overwrite
rawbyte m x =
    let capa = length m.buf in
    let buf1 = if leb capa m.ind then grow (2 * capa) m.buf else m.buf in
    record { buf = overwrite buf1 m.ind ((x % 256) ∷ []); ind = m.ind + 1 }

unfoldable pub rawbytes : Marshall → Bytes → Marshall
unfolding grow overwrite
rawbytes m p =
    let capa = length m.buf in
    let n = length p in
    let capa1 = if ltb n capa then 2 * capa else capa + n in
    let buf1 = if ltb capa (m.ind + n) then grow capa1 m.buf else m.buf in
    record { buf = overwrite buf1 m.ind p; ind = m.ind + n }

-- `pack`; also `<<` for `unsigned int` and `int`.
unfoldable pub pack : Marshall → ℕ → Marshall
unfolding rawbyte
pack m x =
    rawbyte (rawbyte (rawbyte (rawbyte m (x / 2 ^ 24 % 256)) (x / 2 ^ 16 % 256)) (x / 2 ^ 8 % 256))
      (x % 256)

pub record ReqHeader : Type 0 where
  pub xid : ℕ
  pub proc : ℕ
  pub clt_nonce : ℕ
  pub srv_nonce : ℕ
  pub xid_rep : ℕ

pub record ReplyHeader : Type 0 where
  pub xid : ℕ
  pub ret : ℕ

unfoldable pub pack_req_header : Marshall → ReqHeader → Marshall
unfolding pack
pack_req_header m h =
    let saved_sz = m.ind in
    let m0 = record m { ind = rpc_sz_t_size } in
    let m1 = pack (pack (pack (pack (pack m0 h.xid) h.proc) h.clt_nonce) h.srv_nonce) h.xid_rep in
    record m1 { ind = saved_sz }

unfoldable pub pack_reply_header : Marshall → ReplyHeader → Marshall
unfolding pack
pack_reply_header m h =
    let saved_sz = m.ind in
    let m0 = record m { ind = rpc_sz_t_size } in
    let m1 = pack (pack m0 h.xid) h.ret in record m1 { ind = saved_sz }

-- `cstr` and `size`: the bytes that are sent; also what `take_buf` hands over.
unfoldable pub cstr : Marshall → Bytes
cstr m = take m.ind m.buf

-- `get_content` and `str`
unfoldable pub get_content : Marshall → Bytes
get_content m = take (m.ind - rpc_header_sz) (drop rpc_header_sz m.buf)

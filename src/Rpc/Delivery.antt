-- ===== src/Rpc/Delivery.antt =====
-- The arguments of a call reach the method, and its result the caller.
use mathlib.Core.List.{append_assoc}
use lab_cse.Prelude.{
  ℕ, zero, suc, ◌+◌, ◌^◌, ◌<◌, ◌≤◌, ◌≡◌, refl, ap, subst, ◌∙◌, true, List, [], ◌∷◌, ◌++◌, arith,
  length, take, drop, length-append, length-take, length-drop, drop-append_length, ==_refl,
}
use lab_cse.Rpc.Marshall.{
  Bytes, Marshall, new_marshall, cstr, rpc_header_sz, ReqHeader, ReplyHeader,
}
use lab_cse.Rpc.Unmarshall.{Unmarshall, new_unmarshall, okdone, unpack_req_header}
use lab_cse.Rpc.Values.{Value}
use lab_cse.Rpc.Written.{bytes_of, encode_all, Writes, IsValid, write_all-Writes}
use lab_cse.Rpc.Headers.{encode_req, encode_reply, Headed}
use lab_cse.Rpc.Reading.{Ahead, advance, advance-Ahead, unpack-Ahead, length-bytes_of}
use lab_cse.Rpc.Calls.{request}

-- The fields of a header are `int`s.
pub record IsReqHeader (h : ReqHeader) : Type 0 where
  pub xid : h.xid < 2 ^ 32
  pub proc : h.proc < 2 ^ 32
  pub clt_nonce : h.clt_nonce < 2 ^ 32
  pub srv_nonce : h.srv_nonce < 2 ^ 32
  pub xid_rep : h.xid_rep < 2 ^ 32

pub next-Ahead :
    (u : Unmarshall) (x : ℕ) (rest : Bytes)
    → Ahead u (bytes_of x ++ rest)
    → Ahead (advance u 4) rest
next-Ahead u x rest a = advance-Ahead u (bytes_of x) rest 4 (length-bytes_of x) a

pub unpack_req_header-Ahead :
    (u : Unmarshall) (h : ReqHeader) (rest : Bytes)
    → IsReqHeader h
    → Ahead (record u { ind = 4 }) (encode_req h ++ rest)
    → unpack_req_header u ≡ (record u { ind = rpc_header_sz }, h)
unfolding unpack_req_header encode_req
unpack_req_header-Ahead u h rest i a =
    let e = bytes_of h.xid_rep in
    let d = bytes_of h.srv_nonce in
    let c = bytes_of h.clt_nonce in
    let b = bytes_of h.proc in
    let flat : encode_req h ++ rest ≡ bytes_of h.xid ++ (b ++ (c ++ (d ++ (e ++ rest)))) =
      simp append_assoc in
    let u0 : Unmarshall = record u { ind = 4 } in
    let a0 = subst (λ p. Ahead u0 p) flat a in
    let a1 = next-Ahead u0 h.xid _ a0 in
    let a2 = next-Ahead (advance u0 4) h.proc _ a1 in
    let a3 = next-Ahead (advance (advance u0 4) 4) h.clt_nonce _ a2 in
    let a4 = next-Ahead (advance (advance (advance u0 4) 4) 4) h.srv_nonce _ a3 in
    rw
      (
        unpack-Ahead u0 h.xid _ i.xid a0,
        unpack-Ahead (advance u0 4) h.proc _ i.proc a1,
        unpack-Ahead (advance (advance u0 4) 4) h.clt_nonce _ i.clt_nonce a2,
        unpack-Ahead (advance (advance (advance u0 4) 4) 4) h.srv_nonce _ i.srv_nonce a3,
        unpack-Ahead (advance (advance (advance (advance u0 4) 4) 4) 4) h.xid_rep rest i.xid_rep a4,
      )
      refl

-- The bytes of a message that the channel delivers: it fills in the first four.
abbrev pub delivered : Bytes → Marshall → Bytes
delivered sz m = sz ++ drop 4 (cstr m)

cstr_lem : (m : Marshall) → cstr m ≡ take m.ind m.buf
unfolding cstr
cstr_lem m = refl

-- What stands in a message behind its size.
drop_front : (n : ℕ) (xs ys : Bytes) → length xs ≡ n → drop n (xs ++ ys) ≡ ys
drop_front n xs ys e = subst (λ k. drop k (xs ++ ys) ≡ ys) e (drop-append_length xs ys)

drop_inside : (n : ℕ) (xs ys : Bytes) → n ≤ length xs → drop n (xs ++ ys) ≡ drop n xs ++ ys
drop_inside zero xs ys h = refl
drop_inside (suc n) [] ys h = absurd (omega arith)
drop_inside (suc n) (x ∷ xs) ys h = drop_inside n xs ys (omega arith)

-- The memory of the header that a shorter header leaves as it was.
abbrev pub gap : Bytes → Bytes → Bytes
gap mem q = drop (4 + length q) (take rpc_header_sz mem)

pub drop-Headed :
    (m1 m2 : Marshall) (mem p q : Bytes)
    → rpc_header_sz ≤ length mem
    → length q ≤ 20
    → Writes (new_marshall mem) p m1
    → Headed m1 q m2
    → drop 4 (cstr m2) ≡ q ++ (gap mem q ++ p)
drop-Headed m1 m2 mem p q h n w k =
    let front : length (take 4 m1.buf) ≡ 4 = omega (arith, length-take {0} 4 m1.buf, w.put.room) in
    let written : cstr m1 ≡ take 24 mem ++ p =
      cstr_lem m1 ∙ ap (λ i. take i m1.buf) w.ind ∙ w.put.front in
    let behind : drop (4 + length q) (cstr m1) ≡ gap mem q ++ p =
      ap (drop (4 + length q)) written
      ∙ drop_inside (4 + length q) (take 24 mem) p (omega (arith, length-take {0} 24 mem)) in
    ap (drop 4) k.bytes ∙ drop_front 4 (take 4 m1.buf) _ front ∙ ap (λ t. q ++ t) behind

-- The message as the other side takes it, with what its header and its arguments are.
pub behind_size :
    (sz q rest : Bytes)
    → length sz ≡ 4
    → length (sz ++ (q ++ rest)) < 2 ^ 31
    → Ahead (record (new_unmarshall (sz ++ (q ++ rest))) { ind = 4 }) (q ++ rest)
behind_size sz q rest e lim = record {
  ok = refl;
  left = drop_front 4 sz (q ++ rest) e;
  size = omega (arith, e, length-append {0} sz (q ++ rest));
  limit = lim;
}

-- Behind the header.
pub behind_header :
    (sz q junk rest : Bytes)
    → length sz ≡ 4
    → length q + length junk ≡ 20
    → length (sz ++ (q ++ (junk ++ rest))) < 2 ^ 31
    → Ahead (record (new_unmarshall (sz ++ (q ++ (junk ++ rest)))) { ind = rpc_header_sz }) rest
behind_header sz q junk rest e n lim =
    let flat : sz ++ (q ++ (junk ++ rest)) ≡ (sz ++ (q ++ junk)) ++ rest = simp append_assoc in
    let l : length (sz ++ (q ++ junk)) ≡ 24 =
      omega (arith, e, n, length-append {0} sz (q ++ junk), length-append {0} q junk) in
    record {
      ok = refl;
      left = ap (drop 24) flat ∙ drop_front 24 (sz ++ (q ++ junk)) rest l;
      size = omega (arith, ap length flat, l, length-append {0} (sz ++ (q ++ junk)) rest);
      limit = lim;
    }

pub length-encode_req : (h : ReqHeader) → length (encode_req h) ≡ 20
unfolding encode_req bytes_of
length-encode_req h = refl

pub length-encode_reply : (h : ReplyHeader) → length (encode_reply h) ≡ 8
unfolding encode_reply bytes_of
length-encode_reply h = refl

pub length-gap :
    (mem q : Bytes)
    → rpc_header_sz ≤ length mem
    → length q ≤ 20
    → length q + length (gap mem q) ≡ 20
length-gap mem q h n =
    omega (arith, length-take {0} 24 mem, length-drop {0} (4 + length q) (take 24 mem))

pub new-IsValid : (mem : Bytes) → rpc_header_sz ≤ length mem → IsValid (new_marshall mem)
new-IsValid mem h = record { placed = omega arith; within = h }

pub request-Writes :
    (mem : Bytes) (vs : List Value)
    → rpc_header_sz ≤ length mem
    → Writes (new_marshall mem) (encode_all vs) (request mem vs)
unfolding request
request-Writes mem vs h = write_all-Writes (new_marshall mem) vs (new-IsValid mem h)

-- All that is left is read, so that `okdone` holds.
pub okdone-advance : (u : Unmarshall) (p : Bytes) → Ahead u p → okdone (advance u (length p)) ≡ true
unfolding okdone
okdone-advance u p a = ground (arith, a.ok, a.size, ==_refl (length u.buf))

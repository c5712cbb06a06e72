-- ===== src/Rpc/Headers.antt =====
-- A header is written into the front of a message and changes nothing behind it.
use mathlib.Core.List.{append_assoc}
use lab_cse.Prelude.{
  ℕ, zero, suc, ◌+◌, ◌-◌, ◌≤◌, ◌≡◌, refl, ap, sym, ◌∙◌, [], ◌∷◌, ◌++◌, arith, length, take, drop,
}
use lab_cse.Rpc.Marshall.{
  Bytes, Marshall, pack, ReqHeader, ReplyHeader, pack_req_header, pack_reply_header, cstr,
  rpc_header_sz, rpc_sz_t_size,
}
use lab_cse.Rpc.Written.{bytes_of, Writes, Writes-append, Writes-IsValid, IsValid, pack-Writes}

unfoldable pub encode_req : ReqHeader → Bytes
unfolding bytes_of
encode_req h =
    bytes_of h.xid
    ++ (bytes_of h.proc ++ (bytes_of h.clt_nonce ++ (bytes_of h.srv_nonce ++ bytes_of h.xid_rep)))

unfoldable pub encode_reply : ReplyHeader → Bytes
unfolding bytes_of
encode_reply h = bytes_of h.xid ++ bytes_of h.ret

pack-snoc :
    {m m' : Marshall} (p : Bytes) (x : ℕ)
    → IsValid m
    → Writes m p m'
    → Writes m (p ++ bytes_of x) (pack m' x)
pack-snoc {m} {m'} p x v w =
    Writes-append p (bytes_of x) w (pack-Writes m' x (Writes-IsValid p w v))

-- The message `m` with `p` in place of the bytes from 4 on.
pub record Headed (m : Marshall) (p : Bytes) (m' : Marshall) : Type 0 where
  pub bytes : cstr m' ≡ take 4 m.buf ++ (p ++ drop (4 + length p) (cstr m))
  pub ind : m'.ind ≡ m.ind

take_nil : (n : ℕ) → take {A = ℕ} n [] ≡ []
take_nil zero = refl
take_nil (suc n) = refl

take_split : (i k : ℕ) (xs : Bytes) → i ≤ k → take k xs ≡ take i xs ++ take (k - i) (drop i xs)
take_split zero k xs h = let e : k ≡ k - 0 = omega arith in ap (λ n. take n xs) e
take_split (suc i) zero xs h = absurd (omega arith)
take_split (suc i) (suc k) [] h = sym (take_nil (suc k - suc i))
take_split (suc i) (suc k) (x ∷ xs) h =
    let e : k - i ≡ suc k - suc i = omega arith in
    ap (◌∷◌ x) (take_split i k xs (omega arith) ∙ ap (λ n. take i xs ++ take n (drop i xs)) e)

drop-take : (i k : ℕ) (xs : Bytes) → drop i (take k xs) ≡ take (k - i) (drop i xs)
drop-take zero k xs = let e : k ≡ k - 0 = omega arith in ap (λ n. take n xs) e
drop-take (suc i) zero xs =
    let e : 0 ≡ 0 - suc i = omega arith in ap (λ n. take n (drop (suc i) xs)) e
drop-take (suc i) (suc k) [] = sym (take_nil (suc k - suc i))
drop-take (suc i) (suc k) (x ∷ xs) =
    let e : k - i ≡ suc k - suc i = omega arith in drop-take i k xs ∙ ap (λ n. take n (drop i xs)) e

headed :
    (m m1 : Marshall) (p : Bytes)
    → m.ind ≤ length m.buf
    → 4 + length p ≤ m.ind
    → Writes (record m { ind = rpc_sz_t_size }) p m1
    → Headed m p (record m1 { ind = m.ind })
unfolding cstr
headed m m1 p v h w =
    let j : ℕ = 4 + length p in
    record {
      bytes =
          take_split j m.ind m1.buf h
          ∙ ap (λ t. t ++ take (m.ind - j) (drop j m1.buf)) w.put.front
          ∙ ap (λ t. (take 4 m.buf ++ p) ++ take (m.ind - j) t) (w.put.behind (omega arith))
          ∙ ap (λ t. (take 4 m.buf ++ p) ++ t) (sym (drop-take j m.ind m.buf))
          ∙ append_assoc (take 4 m.buf) p (drop j (take m.ind m.buf));
      ind = refl;
    }

pub pack_req_header-Headed :
    (m : Marshall) (h : ReqHeader)
    → m.ind ≤ length m.buf
    → rpc_header_sz ≤ m.ind
    → Headed m (encode_req h) (pack_req_header m h)
unfolding pack_req_header encode_req
pack_req_header-Headed m h v le =
    let m0 : Marshall = record m { ind = rpc_sz_t_size } in
    let v0 : IsValid m0 = record { placed = omega arith; within = omega arith } in
    let a = bytes_of h.xid in
    let b = bytes_of h.proc in
    let c = bytes_of h.clt_nonce in
    let d = bytes_of h.srv_nonce in
    let e = bytes_of h.xid_rep in
    let w = pack-snoc (((a ++ b) ++ c) ++ d) h.xid_rep v0 (
      pack-snoc ((a ++ b) ++ c) h.srv_nonce v0
        (pack-snoc (a ++ b) h.clt_nonce v0 (pack-snoc a h.proc v0 (pack-Writes m0 h.xid v0)))) in
    headed m _ (a ++ (b ++ (c ++ (d ++ e)))) v (omega arith) w

pub pack_reply_header-Headed :
    (m : Marshall) (h : ReplyHeader)
    → m.ind ≤ length m.buf
    → rpc_header_sz ≤ m.ind
    → Headed m (encode_reply h) (pack_reply_header m h)
unfolding pack_reply_header encode_reply bytes_of
pack_reply_header-Headed m h v le =
    let m0 : Marshall = record m { ind = rpc_sz_t_size } in
    let v0 : IsValid m0 = record { placed = omega arith; within = omega arith } in
    headed m _ (bytes_of h.xid ++ bytes_of h.ret) v (omega arith)
      (pack-snoc (bytes_of h.xid) h.ret v0 (pack-Writes m0 h.xid v0))

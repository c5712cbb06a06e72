-- ===== src/Rpc/ContainerTrips.antt =====
-- Vectors and maps are read as they were written.
use mathlib.Core.List.{append_assoc, append-nil}
use lab_cse.Prelude.{
  ℕ, zero, suc, ◌+◌, ◌%◌, ◌^◌, ◌<◌, ◌≤◌, ◌≡◌, refl, ap, sym, subst, ◌∙◌, some, List, [], ◌∷◌, ◌++◌,
  arith, length, take, drop, length-append, length-take, drop-append_length, ◌-◌,
}
use lab_cse.Rpc.Marshall.{Bytes, Marshall, new_marshall, rpc_header_sz, get_content, pack}
use lab_cse.Rpc.Unmarshall.{Unmarshall, take_content}
use lab_cse.Rpc.Values.{Ty, Value, type_of, read}
use lab_cse.Rpc.Written.{
  bytes_of, encode, encode_all, Writes, Writes-append, IsValid, Writes-IsValid, pack-Writes,
  write_all-Writes,
}
use lab_cse.Rpc.Reading.{
  Fits, AllFit, Ahead, advance, advance-Ahead, unpack-Ahead, read-Ahead, length-bytes_of,
}
use lab_cse.Rpc.Delivery.{new-IsValid}
use lab_cse.Rpc.Containers.{write_vector, with_value, read_times, read_vector}

abbrev pub AllOf : Ty → List Value → Type 0
AllOf t [] = Unit {0}
AllOf t (v ∷ vs) = (type_of v ≡ t) × AllOf t vs

pub further :
    (u : Unmarshall) (p q : Bytes)
    → advance (advance u (length p)) (length q) ≡ advance u (length (p ++ q))
further u p q =
    let e : u.ind + length p + length q ≡ u.ind + length (p ++ q) =
      omega (arith, length-append {0} p q) in
    ap (λ i. record u { ind = i }) e

-- A value is read and what follows it is left.
pub read_one :
    (t : Ty) (v : Value) (u : Unmarshall) (rest : Bytes)
    → type_of v ≡ t
    → Fits v
    → Ahead u (encode v ++ rest)
    → (read t u ≡ some (advance u (length (encode v)), v))
      × Ahead (advance u (length (encode v))) rest
read_one t v u rest e f a = (
  subst (λ s. read s u ≡ some (advance u (length (encode v)), v)) e (read-Ahead u v rest f a),
  advance-Ahead u (encode v) rest (length (encode v)) refl a,
)

read_times-Ahead :
    (t : Ty) (vs v : List Value) (u : Unmarshall) (rest : Bytes)
    → AllOf t vs
    → AllFit vs
    → Ahead u (encode_all vs ++ rest)
    → read_times (length vs) t u v ≡ some (advance u (length (encode_all vs)), v ++ vs)
unfolding read_times with_value encode_all
read_times-Ahead t [] v u rest o f a =
    let e : u.ind ≡ u.ind + 0 = omega arith in
    ap (λ i. some (record u { ind = i }, v)) e
    ∙ ap (λ w. some (advance u 0, w)) (sym (append-nil v))
read_times-Ahead t (x ∷ vs) v u rest o f a =
    let a1 = subst (λ p. Ahead u p) (append_assoc (encode x) (encode_all vs) rest) a in
    let (one, a2) = read_one t x u (encode_all vs ++ rest) o.0 f.0 a1 in
    ap (λ r. with_value r (λ u1 z. read_times (length vs) t u1 (v ++ (z ∷ [])))) one
    ∙ read_times-Ahead t vs (v ++ (x ∷ [])) (advance u (length (encode x))) rest o.1 f.1 a2
    ∙ ap (λ w. some (w, (v ++ (x ∷ [])) ++ vs)) (further u (encode x) (encode_all vs))
    ∙ ap (λ w. some (advance u (length (encode x ++ encode_all vs)), w))
        (append_assoc v (x ∷ []) vs)

pub small : (n : ℕ) → n < 2 ^ 32 → n % 2 ^ 32 ≡ n
small n h = omega arith

take_nothing : (k : ℕ) (xs : Bytes) → xs ≡ [] → xs ≡ take k xs
take_nothing zero xs e = e
take_nothing (suc k) [] e = refl
take_nothing (suc k) (x ∷ xs) e = cc e

drop-take : (n k m : ℕ) (xs : Bytes) → n + k ≡ m → drop n (take m xs) ≡ take k (drop n xs)
drop-take zero k m xs e = let f : m ≡ k = omega arith in ap (λ i. take i xs) f
drop-take (suc n) k zero xs e = absurd (omega arith)
drop-take (suc n) k (suc m) [] e = take_nothing k [] refl
drop-take (suc n) k (suc m) (x ∷ xs) e = drop-take n k m xs (omega arith)

drop_exact : (n : ℕ) (xs ys : Bytes) → length xs ≡ n → drop n (xs ++ ys) ≡ ys
drop_exact n xs ys e = subst (λ k. drop k (xs ++ ys) ≡ ys) e (drop-append_length xs ys)

-- The content of a buffer is what was written to it.
pub get_content-Writes :
    (mem p : Bytes) (m : Marshall)
    → rpc_header_sz ≤ length mem
    → Writes (new_marshall mem) p m
    → get_content m ≡ p
unfolding get_content
get_content-Writes mem p m h w =
    let front : length (take 24 mem) ≡ 24 = omega (arith, length-take {0} 24 mem) in
    let size : m.ind - 24 ≡ length p = omega (arith, w.ind) in
    ap (λ k. take k (drop 24 m.buf)) size
    ∙ sym (drop-take 24 (length p) (24 + length p) m.buf refl)
    ∙ ap (drop 24) w.put.front
    ∙ drop_exact 24 (take 24 mem) p front

-- What `take_content` takes is ahead.
pub take_content-Ahead :
    (mem p : Bytes)
    → length mem ≡ rpc_header_sz
    → length (mem ++ p) < 2 ^ 31
    → Ahead (take_content mem p) (p ++ [])
take_content-Ahead mem p e lim = record {
  ok = refl;
  left = drop_exact 24 mem p e ∙ sym (append-nil p);
  size = omega (arith, e, length-append {0} mem p, length-append {0} {A = ℕ} p []);
  limit = lim;
}

write_vector-Writes :
    (m : Marshall) (vs : List Value)
    → IsValid m
    → length vs < 2 ^ 32
    → Writes m (bytes_of (length vs) ++ encode_all vs) (write_vector m vs)
unfolding write_vector
write_vector-Writes m vs i lt =
    let n = small (length vs) lt in
    let head = bytes_of (length vs) in
    let first : Writes m head (pack m (length vs % 2 ^ 32)) =
      subst (λ x. Writes m head (pack m x)) (sym n) (pack-Writes m (length vs) i) in
    Writes-append head (encode_all vs) first
      (write_all-Writes (pack m (length vs % 2 ^ 32)) vs (Writes-IsValid head first i))

read_vector-Ahead :
    (t : Ty) (vs v : List Value) (u : Unmarshall) (rest : Bytes)
    → AllOf t vs
    → AllFit vs
    → length vs < 2 ^ 32
    → Ahead u ((bytes_of (length vs) ++ encode_all vs) ++ rest)
    → read_vector t u v ≡ some (advance u (length (bytes_of (length vs) ++ encode_all vs)), v ++ vs)
unfolding read_vector
read_vector-Ahead t vs v u rest o f lt a =
    let head = bytes_of (length vs) in
    let a1 = subst (λ p. Ahead u p) (append_assoc head (encode_all vs) rest) a in
    let a2 = advance-Ahead u head (encode_all vs ++ rest) 4 (length-bytes_of (length vs)) a1 in
    let four =
      ap (λ k. some (advance (advance u k) (length (encode_all vs)), v ++ vs))
        (sym (length-bytes_of (length vs))) in
    rw (unpack-Ahead u (length vs) (encode_all vs ++ rest) lt a1) (
      read_times-Ahead t vs v (advance u 4) rest o f a2
      ∙ four
      ∙ ap (λ w. some (w, v ++ vs)) (further u head (encode_all vs)))

-- A vector of fewer than 2 ^ 32 elements of one type, which fit it, is written to a new buffer. Where
-- the content of the buffer is taken in, with its header shorter than 2 ^ 31, the vector is read
-- with the elements behind those that were there.
pub read_vector-write_vector :
    (t : Ty) (vs v : List Value) (mem mem2 : Bytes)
    → AllOf t vs
    → AllFit vs
    → length vs < 2 ^ 32
    → rpc_header_sz ≤ length mem
    → length mem2 ≡ rpc_header_sz
    → length (mem2 ++ get_content (write_vector (new_marshall mem) vs)) < 2 ^ 31
    → (u : Unmarshall) × (read_vector t
          (take_content mem2 (get_content (write_vector (new_marshall mem) vs)))
          v
        ≡ some (u, v ++ vs))
read_vector-write_vector t vs v mem mem2 o f lt h e lim =
    let p = bytes_of (length vs) ++ encode_all vs in
    let w = write_vector-Writes (new_marshall mem) vs (new-IsValid mem h) lt in
    let same = get_content-Writes mem p (write_vector (new_marshall mem) vs) h w in
    let short : length (mem2 ++ p) < 2 ^ 31 = subst (λ q. length (mem2 ++ q) < 2 ^ 31) same lim in
    (
      advance (take_content mem2 p) (length p),
      ap (λ q. read_vector t (take_content mem2 q) v) same
          ∙ read_vector-Ahead t vs v (take_content mem2 p) [] o f lt
              (take_content-Ahead mem2 p e short),
    )

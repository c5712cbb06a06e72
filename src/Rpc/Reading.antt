-- ===== src/Rpc/Reading.antt =====
-- What `<<` has written, `>>` reads.
use mathlib.Core.List.{append_assoc}
use lab_cse.Prelude.{
  ℕ, zero, suc, ◌+◌, ◌*◌, ◌/◌, ◌%◌, ◌^◌, ◌<◌, ◌≤◌, ◌≡◌, refl, ap, sym, subst, ◌∙◌, true, false,
  some, List, [], ◌∷◌, ◌++◌, arith, ltb, leb, if◌then◌else◌, length, drop, get_or, map,
  length-append, take-append_length, drop-append_length, drop-drop,
}
use lab_cse.Rpc.Marshall.{Bytes}
use lab_cse.Rpc.Unmarshall.{Unmarshall, sign_extend8, rawbyte, unpack, rawbytes}
use lab_cse.Rpc.Values.{
  Value, of_bool, of_u8, of_u16, of_u32, of_u64, of_str, type_of, read, read_str, as_str, push,
  read_all,
}
use lab_cse.Rpc.Written.{bytes_of, encode, encode_all}

-- The value fits the type that it is written as.
abbrev pub Fits : Value → Type 0
Fits (of_bool b) = Unit {0}
Fits (of_u8 x) = x < 2 ^ 8
Fits (of_u16 x) = x < 2 ^ 16
Fits (of_u32 x) = x < 2 ^ 32
Fits (of_u64 x) = x < 2 ^ 64
Fits (of_str s) = Unit {0}

abbrev pub AllFit : List Value → Type 0
AllFit [] = Unit {0}
AllFit (v ∷ vs) = Fits v × AllFit vs

-- `p` is what is left to read, of a buffer whose size is an `int`.
pub record Ahead (u : Unmarshall) (p : Bytes) : Type 0 where
  pub ok : u.ok ≡ true
  pub left : drop u.ind u.buf ≡ p
  pub size : u.ind + length p ≡ length u.buf
  pub limit : length u.buf < 2 ^ 31

abbrev pub advance : Unmarshall → ℕ → Unmarshall
advance u n = record u { ind = u.ind + n }

advance_twice : (u : Unmarshall) (m n k : ℕ) → m + n ≡ k → advance (advance u m) n ≡ advance u k
advance_twice u m n k e =
    let f : u.ind + m + n ≡ u.ind + k = omega arith in ap (λ i. record u { ind = i }) f

pub advance-Ahead :
    (u : Unmarshall) (p rest : Bytes) (n : ℕ)
    → length p ≡ n
    → Ahead u (p ++ rest)
    → Ahead (advance u n) rest
advance-Ahead u p rest n e a = record {
  ok = a.ok;
  left =
      sym (drop-drop n u.ind (u.ind + n) u.buf refl)
      ∙ (ap (drop n) a.left ∙ (ap (λ k. drop k (p ++ rest)) (sym e) ∙ drop-append_length p rest));
  size = omega (arith, a.size, length-append {0} p rest);
  limit = a.limit;
}

get_or-drop : (i : ℕ) (xs ys : Bytes) (x : ℕ) → drop i xs ≡ x ∷ ys → get_or xs i 0 ≡ x
get_or-drop zero [] ys x e = cc
get_or-drop zero (z ∷ zs) ys x e = cc
get_or-drop (suc i) [] ys x e = cc
get_or-drop (suc i) (z ∷ zs) ys x e = get_or-drop i zs ys x e

rawbyte-Ahead :
    (u : Unmarshall) (x : ℕ) (rest : Bytes)
    → Ahead u (x ∷ rest)
    → rawbyte u ≡ (advance u 1, sign_extend8 x)
unfolding rawbyte
rawbyte-Ahead u x rest a =
    let inside : leb (length u.buf) u.ind ≡ false = ground (arith, a.size) in
    rw (inside, get_or-drop u.ind u.buf rest x a.left) refl

sign_extend8-mod : (x : ℕ) → x < 256 → sign_extend8 x % 256 ≡ x
sign_extend8-mod x h = ground arith

sign_extend8_byte : (x : ℕ) → sign_extend8 (x % 256) % 256 ≡ x % 256
sign_extend8_byte x = sign_extend8-mod (x % 256) (omega arith)

-- The four bytes of a number, read with whatever masks the program reads them.
pub unpack-Ahead :
    (u : Unmarshall) (x : ℕ) (rest : Bytes)
    → x < 2 ^ 32
    → Ahead u (bytes_of x ++ rest)
    → unpack u ≡ (advance u 4, x)
unfolding unpack bytes_of
unpack-Ahead u x rest h a =
    let r0 : Bytes = (x / 2 ^ 16 % 256) ∷ (x / 2 ^ 8 % 256) ∷ (x % 256) ∷ rest in
    let r1 : Bytes = (x / 2 ^ 8 % 256) ∷ (x % 256) ∷ rest in
    let r2 : Bytes = (x % 256) ∷ rest in
    let a1 = advance-Ahead u ((x / 2 ^ 24 % 256) ∷ []) r0 1 refl a in
    let a2 = advance-Ahead (advance u 1) ((x / 2 ^ 16 % 256) ∷ []) r1 1 refl a1 in
    let a3 = advance-Ahead (advance (advance u 1) 1) ((x / 2 ^ 8 % 256) ∷ []) r2 1 refl a2 in
    let value : x / 2 ^ 24 % 256 * 2 ^ 24
          + x / 2 ^ 16 % 256 * 2 ^ 16
          + x / 2 ^ 8 % 256 * 2 ^ 8
          + x % 256
        ≡ x =
      omega arith in
    let place : u.ind + 1 + 1 + 1 + 1 ≡ u.ind + 4 = omega arith in
    rw
      (
        rawbyte-Ahead u (x / 2 ^ 24 % 256) r0 a,
        rawbyte-Ahead (advance u 1) (x / 2 ^ 16 % 256) r1 a1,
        rawbyte-Ahead (advance (advance u 1) 1) (x / 2 ^ 8 % 256) r2 a2,
        rawbyte-Ahead (advance (advance (advance u 1) 1) 1) (x % 256) rest a3,
        sign_extend8_byte (x / 2 ^ 24),
        sign_extend8_byte (x / 2 ^ 16),
        sign_extend8_byte (x / 2 ^ 8),
        sign_extend8_byte x,
        value,
        place,
      )
      refl

not_above : (n k : ℕ) → k ≤ n → ltb n k ≡ false
not_above n k h = ground arith

rawbytes-Ahead :
    (u : Unmarshall) (s rest ss : Bytes)
    → Ahead u (s ++ rest)
    → rawbytes u (length s) ss ≡ some (advance u (length s), s)
unfolding rawbytes
rawbytes-Ahead u s rest ss a =
    let l = length-append {0} s rest in
    let fits : ltb (length u.buf) ((u.ind + length s) % 2 ^ 32) ≡ false =
      not_above (length u.buf) ((u.ind + length s) % 2 ^ 32) (omega (arith, a.size, a.limit, l)) in
    let inside : ltb (length u.buf) (u.ind + length s) ≡ false =
      not_above (length u.buf) (u.ind + length s) (omega (arith, a.size, l)) in
    rw (fits, inside, a.left, take-append_length s rest) refl

pub length-bytes_of : (x : ℕ) → length (bytes_of x) ≡ 4
unfolding bytes_of
length-bytes_of x = refl

read_str_lem :
    (u : Unmarshall) (s rest : Bytes)
    → Ahead u (s ++ rest)
    → read_str (u, length s) ≡ some (advance u (length s), of_str s)
unfolding read_str as_str
read_str_lem u s rest a =
    ap (λ b. as_str (if b then rawbytes u (length s) [] else some (u, []))) a.ok
    ∙ ap as_str (rawbytes-Ahead u s rest [] a)

pub read-Ahead :
    (u : Unmarshall) (v : Value) (rest : Bytes)
    → Fits v
    → Ahead u (encode v ++ rest)
    → read (type_of v) u ≡ some (advance u (length (encode v)), v)
unfolding read type_of encode
read-Ahead u (of_bool true) rest f a = rw (rawbyte-Ahead u 1 rest a) refl
read-Ahead u (of_bool false) rest f a = rw (rawbyte-Ahead u 0 rest a) refl
read-Ahead u (of_u8 x) rest f a =
    let e : x % 256 ≡ x = omega arith in
    rw (rawbyte-Ahead u (x % 256) rest a, sign_extend8_byte x, e) refl
read-Ahead u (of_u16 x) rest f a =
    let r : Bytes = (x % 256) ∷ rest in
    let a1 = advance-Ahead u ((x / 2 ^ 8 % 256) ∷ []) r 1 refl a in
    let value : x / 2 ^ 8 % 256 * 2 ^ 8 + x % 256 ≡ x = omega arith in
    let place : u.ind + 1 + 1 ≡ u.ind + 2 = omega arith in
    rw
      (
        rawbyte-Ahead u (x / 2 ^ 8 % 256) r a,
        rawbyte-Ahead (advance u 1) (x % 256) rest a1,
        sign_extend8_byte (x / 2 ^ 8),
        sign_extend8_byte x,
        value,
        place,
      )
      refl
read-Ahead u (of_u32 x) rest f a = rw (unpack-Ahead u x rest f a, length-bytes_of x) refl
read-Ahead u (of_u64 x) rest f a =
    let h : ℕ = x / 2 ^ 32 % 2 ^ 32 in
    let l : ℕ = x % 2 ^ 32 in
    let b : Ahead u (bytes_of h ++ (bytes_of l ++ rest)) =
      subst (λ p. Ahead u p) (append_assoc (bytes_of h) (bytes_of l) rest) a in
    let b1 = advance-Ahead u (bytes_of h) (bytes_of l ++ rest) 4 (length-bytes_of h) b in
    let value : l + h * 2 ^ 32 ≡ x = omega arith in
    let place : u.ind + 4 + 4 ≡ u.ind + 8 = omega arith in
    let n : length (bytes_of h ++ bytes_of l) ≡ 8 =
      omega (
        arith,
        length-append {0} (bytes_of h) (bytes_of l),
        length-bytes_of h,
        length-bytes_of l,
      ) in
    rw
      (
        unpack-Ahead u h (bytes_of l ++ rest) (omega arith) b,
        unpack-Ahead (advance u 4) l rest (omega arith) b1,
        value,
        place,
        n,
      )
      refl
read-Ahead u (of_str s) rest f a =
    let n : ℕ = length s % 2 ^ 32 in
    let b : Ahead u (bytes_of n ++ (s ++ rest)) =
      subst (λ p. Ahead u p) (append_assoc (bytes_of n) s rest) a in
    let b1 = advance-Ahead u (bytes_of n) (s ++ rest) 4 (length-bytes_of n) b in
    let small : n ≡ length s = omega (arith, b1.size, b1.limit, length-append {0} s rest) in
    let total : length (bytes_of n ++ s) ≡ 4 + length s =
      omega (arith, length-append {0} (bytes_of n) s, length-bytes_of n) in
    let place = advance_twice u 4 (length s) (length (bytes_of n ++ s)) (sym total) in
    rw (unpack-Ahead u n (s ++ rest) (omega arith) b) (
      ap (λ k. read_str (advance u 4, k)) small
      ∙ read_str_lem (advance u 4) s rest b1
      ∙ ap (λ w. some (w, of_str s)) place)

-- The arguments of a call are read as they were written.
pub read_all-Ahead :
    (vs : List Value) (u : Unmarshall) (rest : Bytes)
    → AllFit vs
    → Ahead u (encode_all vs ++ rest)
    → read_all (map type_of vs) u ≡ some (advance u (length (encode_all vs)), vs)
unfolding read_all encode_all push
read_all-Ahead [] u rest f a =
    let e : u.ind ≡ u.ind + 0 = omega arith in ap (λ i. some (record u { ind = i }, [])) e
read_all-Ahead (v ∷ vs) u rest f a =
    let b : Ahead u (encode v ++ (encode_all vs ++ rest)) =
      subst (λ p. Ahead u p) (append_assoc (encode v) (encode_all vs) rest) a in
    let b1 = advance-Ahead u (encode v) (encode_all vs ++ rest) (length (encode v)) refl b in
    let place =
      advance_twice u (length (encode v)) (length (encode_all vs))
        (length (encode v ++ encode_all vs)) (sym (length-append (encode v) (encode_all vs))) in
    rw
      (
        read-Ahead u v (encode_all vs ++ rest) f.0 b,
        read_all-Ahead vs (advance u (length (encode v))) rest f.1 b1,
        place,
        read_all,
      )
      refl

-- ===== src/Yfs/Digits.antt =====
-- A number that is printed is read back.
use lab_cse.Prelude.{
  ℕ, zero, suc, ◌+◌, ◌-◌, ◌*◌, ◌/◌, ◌%◌, ◌^◌, ◌<◌, ◌≤◌, ◌≡◌, ◌≢◌, refl, sym, ◌∙◌, false, [], ◌∷◌,
  ◌++◌, arith, ltb, ltb→lt, Bool-cases, inl, inr,
}
use lab_cse.Prelude.Text.{Text}
use lab_cse.Yfs.Format.{decimal, filename, read_digits, read_number, skip_space, n2i, has_slash}

-- The first number that `k` digits cannot print.
abbrev limit : ℕ → ℕ
limit zero = 1
limit (suc k) = 10 * limit k

abbrev pub AllDigits : Text → Type 0
AllDigits [] = Unit {0}
AllDigits (c ∷ cs) = (48 ≤ c) × (c ≤ 57) × AllDigits cs

append-AllDigits : (xs ys : Text) → AllDigits xs → AllDigits ys → AllDigits (xs ++ ys)
append-AllDigits [] ys h k = k
append-AllDigits (x ∷ xs) ys h k = (h.0, h.1, append-AllDigits xs ys h.2 k)

read_digits-append :
    (acc : ℕ) (xs ys : Text)
    → AllDigits xs
    → read_digits acc (xs ++ ys) ≡ read_digits (read_digits acc xs) ys
unfolding read_digits
read_digits-append acc [] ys h = refl
read_digits-append acc (x ∷ xs) ys h =
    ground (arith, read_digits-append (10 * acc + (x - 48)) xs ys h.2)

decimal-AllDigits : (fuel n : ℕ) → AllDigits (decimal fuel n)
unfolding decimal
decimal-AllDigits zero n = tt
decimal-AllDigits (suc fuel) n = elim (Bool-cases (ltb n 10)) [
  | inl e ↦ rw e (omega arith, omega (arith, ltb→lt n 10 e), tt)
  | inr e ↦ rw e (
      append-AllDigits (decimal fuel (n / 10)) _ (decimal-AllDigits fuel (n / 10))
        (omega arith, omega arith, tt))
]

read_digits-decimal : (fuel n : ℕ) → 0 < fuel → n < limit fuel → read_digits 0 (decimal fuel n) ≡ n
unfolding decimal read_digits
read_digits-decimal zero n h lt = absurd (omega arith)
read_digits-decimal (suc zero) n h lt = ground arith
read_digits-decimal (suc (suc k)) n h lt = elim (Bool-cases (ltb n 10)) [
  | inl e ↦ ground arith
  | inr e ↦
      let rest = decimal (suc k) (n / 10) in
      let smaller : n / 10 < limit (suc k) = omega arith in
      let back = read_digits-decimal (suc k) (n / 10) (omega arith) smaller in
      rw e (
        read_digits-append 0 rest ((48 + n % 10) ∷ []) (decimal-AllDigits (suc k) (n / 10))
        ∙ rw back (ground arith))
]

not_empty : (xs : Text) (c : ℕ) → xs ++ (c ∷ []) ≢ []
not_empty [] c e = cc
not_empty (x ∷ xs) c e = cc

last_digit : (fuel n : ℕ) → (xs : Text) × (c : ℕ) × (decimal (suc fuel) n ≡ xs ++ (c ∷ []))
unfolding decimal
last_digit fuel n = elim (Bool-cases (ltb n 10)) [
  | inl e ↦ ([], 48 + n, rw e refl)
  | inr e ↦ (decimal fuel (n / 10), 48 + n % 10, rw e refl)
]

some_digit : (fuel n : ℕ) → decimal (suc fuel) n ≢ []
some_digit fuel n e = let (xs, c, k) = last_digit fuel n in not_empty xs c (sym k ∙ e)

n2i-digits :
    (junk : ℕ) (xs : Text)
    → xs ≢ []
    → AllDigits xs
    → read_digits 0 xs < 2 ^ 64
    → n2i junk xs ≡ read_digits 0 xs
unfolding n2i skip_space read_number
n2i-digits junk [] ne d lt = absurd (ne refl)
n2i-digits junk (c ∷ cs) ne d lt = ground arith

-- The number that `filename` prints is the number that `n2i` reads, up to 64 bits, whatever its
-- variable held before.
pub n2i-filename : (junk inum : ℕ) → inum < 2 ^ 64 → n2i junk (filename inum) ≡ inum
unfolding filename
n2i-filename junk inum h =
    let v = read_digits-decimal 20 inum (omega arith) (omega arith) in
    n2i-digits junk (decimal 20 inum) (some_digit 19 inum) (decimal-AllDigits 20 inum)
      (omega (arith, v))
    ∙ v

no_slash : (xs : Text) → AllDigits xs → has_slash xs ≡ false
unfolding has_slash
no_slash [] h = refl
no_slash (x ∷ xs) h = ground (arith, no_slash xs h.2)

pub has_slash-filename : (inum : ℕ) → has_slash (filename inum) ≡ false
unfolding filename
has_slash-filename inum = no_slash (decimal 20 inum) (decimal-AllDigits 20 inum)

-- ===== src/Rpc/Timespec.antt =====
-- Times and deadlines: `add_timespec` and `cmp_timespec` of rpc/rpc.cc, and the deadlines of the
-- loop of `call1`. A time is not negative, and neither is a timeout.
use mathlib.Core.Option
use lab_cse.Prelude.{
  ℕ, zero, suc, ◌+◌, ◌-◌, ◌*◌, ◌/◌, ◌%◌, ◌<◌, ◌≤◌, ◌≡◌, refl, false, Option, none, some, arith, ltb,
  if◌then◌else◌, Bool-cases, inl, inr,
}

pub record Timespec : Type 0 where
  pub tv_sec : ℕ
  pub tv_nsec : ℕ

abbrev pub billion : ℕ
billion = 1000000000

pub data Order : Type 0 where
  less equal greater : Order

-- 1, -1 or 0
unfoldable pub cmp_timespec : Timespec → Timespec → Order
cmp_timespec a b =
    if ltb b.tv_sec a.tv_sec
    then greater
    else (if ltb a.tv_sec b.tv_sec
        then less
        else (if ltb b.tv_nsec a.tv_nsec
            then greater
            else (if ltb a.tv_nsec b.tv_nsec then less else equal)))

-- The loop of `add_timespec`, on fuel; `none` is that the fuel is not enough.
unfoldable pub carry : ℕ → Timespec → Option Timespec
carry zero t = none
carry (suc fuel) t =
    let rest = carry fuel (record { tv_sec = t.tv_sec + 1; tv_nsec = t.tv_nsec - billion }) in
    if ltb billion t.tv_nsec then rest else some t

-- Two rounds are enough for a time with fewer than 10 ^ 9 nanoseconds.
unfoldable pub add_timespec : Timespec → ℕ → Option Timespec
unfolding carry
add_timespec a b =
    carry 2 (record { tv_sec = a.tv_sec + b / 1000; tv_nsec = a.tv_nsec + b % 1000 * 1000000 })

-- A round of the loop of `call1`: the time up to which it waits, and the final deadline, whose
-- seconds are set to 0 in the last round.
unfoldable pub next_deadline : Timespec → ℕ → Timespec → Option (Timespec × Timespec)
unfolding add_timespec
next_deadline now curr_to final =
    Option.map
      (λ next. elim (cmp_timespec next final) [
        | less ↦ (next, final)
        | equal ↦ (next, final)
        | greater ↦ (final, record final { tv_sec = 0 })
      ])
      (add_timespec now curr_to)

abbrev pub nanoseconds : Timespec → ℕ
nanoseconds t = t.tv_sec * billion + t.tv_nsec

-- A time as `carry` leaves it is the time with at most 10 ^ 9 nanoseconds over the seconds.
pub record IsSum (a : Timespec) (b : ℕ) (t : Timespec) : Type 0 where
  pub total : nanoseconds t ≡ nanoseconds a + b * 1000000
  pub bound : t.tv_nsec ≤ billion

split : (b : ℕ) → b ≡ b / 1000 * 1000 + b % 1000
split b = omega arith

-- Let a time have fewer than 10 ^ 9 nanoseconds over its seconds. Then the loop of `add_timespec`
-- ends, and the time that it leaves is later by the timeout in milliseconds, with at most 10 ^ 9
-- nanoseconds over its seconds.
pub add_timespec-IsSum :
    (a : Timespec) (b : ℕ)
    → a.tv_nsec < billion
    → (t : Timespec) × (add_timespec a b ≡ some t) × IsSum a b t
unfolding add_timespec carry
add_timespec-IsSum a b h =
    let sec = a.tv_sec + b / 1000 in
    let nsec = a.tv_nsec + b % 1000 * 1000000 in
    let e = split b in
    elim (Bool-cases (ltb billion nsec)) [
      | inl over ↦
          let enough : ltb billion (nsec - billion) ≡ false = ground arith in
          let large : billion < nsec = ground arith in
          (
            record { tv_sec = sec + 1; tv_nsec = nsec - billion },
            rw (over, enough) refl,
            record { total = omega arith; bound = omega arith },
          )
      | inr done ↦
          let small : nsec ≤ billion = ground arith in
          (
            record { tv_sec = sec; tv_nsec = nsec },
            rw done refl,
            record { total = omega arith; bound = small },
          )
    ]

abbrev pub Agrees : Order → ℕ → ℕ → Type 0
Agrees less m n = m < n
Agrees equal m n = m ≡ n
Agrees greater m n = n < m

-- `cmp_timespec` tells of two times with fewer than 10 ^ 9 nanoseconds over their seconds which
-- is later.
pub cmp_timespec-Agrees :
    (a b : Timespec)
    → a.tv_nsec < billion
    → b.tv_nsec < billion
    → Agrees (cmp_timespec a b) (nanoseconds a) (nanoseconds b)
unfolding cmp_timespec
cmp_timespec-Agrees a b h k = elim (Bool-cases (ltb b.tv_sec a.tv_sec)) [
  | inl e ↦ let lt : b.tv_sec < a.tv_sec = ground arith in rw e (omega arith)
  | inr e ↦ elim (Bool-cases (ltb a.tv_sec b.tv_sec)) [
    | inl f ↦ let lt : a.tv_sec < b.tv_sec = ground arith in rw (e, f) (omega arith)
    | inr f ↦
        let same : a.tv_sec ≡ b.tv_sec = ground arith in
        elim (Bool-cases (ltb b.tv_nsec a.tv_nsec)) [
          | inl g ↦ let lt : b.tv_nsec < a.tv_nsec = ground arith in rw (e, f, g) (omega arith)
          | inr g ↦ elim (Bool-cases (ltb a.tv_nsec b.tv_nsec)) [
            | inl i ↦ let lt : a.tv_nsec < b.tv_nsec = ground arith in rw (e, f, g, i) (omega arith)
            | inr i ↦ let eq : a.tv_nsec ≡ b.tv_nsec = ground arith in rw (e, f, g, i) (omega arith)
          ]
        ]
  ]
]

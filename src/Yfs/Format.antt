-- ===== src/Yfs/Format.antt =====
-- `filename`, `n2i`, and the loops of `_readdir` and `_lookup` of yfs_client.cc. An `inum` is an
-- unsigned number of 64 bits.
use lab_cse.Prelude.{
  ℕ, zero, suc, ◌+◌, ◌-◌, ◌*◌, ◌/◌, ◌%◌, ◌^◌, Bool, false, ◌&&◌, ◌||◌, Option, none, some, List, [],
  ◌∷◌, ◌++◌, ltb, leb, ◌==◌, if◌then◌else◌,
}
use lab_cse.Prelude.Text.{Text, text_eq}

abbrev pub slash : ℕ
slash = b'/'

-- The digits of a number, with fuel for as many as it has.
unfoldable pub decimal : ℕ → ℕ → Text
decimal zero n = []
decimal (suc fuel) n =
    let rest = decimal fuel (n / 10) in
    if ltb n 10 then (48 + n) ∷ [] else rest ++ ((48 + n % 10) ∷ [])

-- 20 digits are enough for 64 bits.
unfoldable pub filename : ℕ → Text
unfolding decimal
filename inum = decimal 20 inum

abbrev pub is_digit : ℕ → Bool
is_digit c = leb 48 c && leb c 57

-- The digits at the front, behind those that make `acc`.
unfoldable pub read_digits : ℕ → Text → ℕ
read_digits acc [] = acc
read_digits acc (c ∷ cs) =
    let more = read_digits (10 * acc + (c - 48)) cs in if is_digit c then more else acc

abbrev pub is_space : ℕ → Bool
is_space c = (c == 32) || (leb 9 c && leb c 13)

unfoldable pub skip_space : Text → Text
skip_space [] = []
skip_space (c ∷ cs) = let rest = skip_space cs in if is_space c then rest else c ∷ cs

-- `>>` reads into an unsigned number of 64 bits: too large a number gives the largest, and a minus
-- sign negates. At the end of the stream the variable keeps what it held, `junk`.
unfoldable pub read_number : ℕ → Text → ℕ
unfolding read_digits
read_number junk [] = junk
read_number junk (c ∷ cs) =
    let signed = read_digits 0 cs in
    let plain = read_digits 0 (c ∷ cs) in
    let largest : ℕ = 2 ^ 64 - 1 in
    if c == b'-'
    then (if leb signed largest then (2 ^ 64 - signed) % 2 ^ 64 else largest)
    else (if c == b'+'
        then (if leb signed largest then signed else largest)
        else (if leb plain largest then plain else largest))

unfoldable pub n2i : ℕ → Text → ℕ
unfolding read_number skip_space
n2i junk n = read_number junk (skip_space n)

-- `buf.substr(0, buf.find('/'))`
unfoldable pub before : Text → Text
before [] = []
before (c ∷ cs) = let rest = before cs in if c == slash then [] else c ∷ rest

unfoldable pub has_slash : Text → Bool
has_slash [] = false
has_slash (c ∷ cs) = (c == slash) || has_slash cs

unfoldable pub behind : Text → Text
behind [] = []
behind (c ∷ cs) = let rest = behind cs in if c == slash then cs else rest

-- `buf.substr(buf.find('/') + 1)`: without a slash the position is the largest number, and one
-- more is 0.
unfoldable pub after : Text → Text
unfolding has_slash behind
after buf = if has_slash buf then behind buf else buf

pub record Dirent : Type 0 where
  pub name : Text
  pub inum : ℕ

-- The bytes that `_create`, `_mkdir` and `_symlink` put behind the content of the parent.
unfoldable pub entry : Dirent → Text
unfolding filename
entry e = e.name ++ (slash ∷ (filename e.inum ++ (slash ∷ [])))

unfoldable pub push_front : Dirent → Option (List Dirent) → Option (List Dirent)
push_front ent none = none
push_front ent (some ents) = some (ent ∷ ents)

-- The loop of `_readdir`, for `fuel` rounds at most; `none` where it has not ended by then.
unfoldable pub read_entries : ℕ → ℕ → Text → Option (List Dirent)
unfolding before after n2i push_front
read_entries zero junk buf = none
read_entries (suc fuel) junk [] = some []
read_entries (suc fuel) junk (c ∷ cs) =
    let buf1 = after (c ∷ cs) in
    let ent : Dirent = record { name = before (c ∷ cs); inum = n2i junk (before buf1) } in
    push_front ent (read_entries fuel junk (after buf1))

-- The loop of `_lookup`: the number of the first entry with the name.
unfoldable pub find_entry : List Dirent → Text → Option ℕ
unfolding text_eq
find_entry [] name = none
find_entry (e ∷ es) name = if text_eq e.name name then some e.inum else find_entry es name

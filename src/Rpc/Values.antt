-- ===== src/Rpc/Values.antt =====
-- The operators `<<` and `>>` of rpc/rpc.cc, on one type of values for the types that they are
-- overloaded on; and the arguments of a call, which are written and read one after the other.
use lab_cse.Prelude.{
  ℕ, ◌+◌, ◌*◌, ◌/◌, ◌%◌, ◌^◌, Bool, true, false, Option, none, some, List, [], ◌∷◌, ◌==◌,
  if◌then◌else◌, length,
}
use lab_cse.Rpc.Marshall
use lab_cse.Rpc.Marshall.{Bytes, Marshall, pack}
use lab_cse.Rpc.Unmarshall.{Unmarshall, rawbyte, unpack, rawbytes}

-- `u8` is `unsigned char` and `char`, `u16` is `unsigned short` and `short`, `u32` is
-- `unsigned int` and `int`, `u64` is `unsigned long long`.
pub data Ty : Type 0 where
  bool u8 u16 u32 u64 str : Ty

pub data Value : Type 0 where
  of_bool : Bool → Value
  of_u8 : ℕ → Value
  of_u16 : ℕ → Value
  of_u32 : ℕ → Value
  of_u64 : ℕ → Value
  of_str : Bytes → Value

unfoldable pub type_of : Value → Ty
type_of (of_bool b) = bool
type_of (of_u8 n) = u8
type_of (of_u16 n) = u16
type_of (of_u32 n) = u32
type_of (of_u64 n) = u64
type_of (of_str s) = str

-- `m << x`
unfoldable pub write : Marshall → Value → Marshall
unfolding Marshall.rawbyte Marshall.rawbytes pack
write m (of_bool b) = Marshall.rawbyte m (if b then 1 else 0)
write m (of_u8 x) = Marshall.rawbyte m x
write m (of_u16 x) = Marshall.rawbyte (Marshall.rawbyte m (x / 2 ^ 8 % 256)) (x % 256)
write m (of_u32 x) = pack m x
write m (of_u64 x) = pack (pack m (x / 2 ^ 32 % 2 ^ 32)) (x % 2 ^ 32)
write m (of_str s) = Marshall.rawbytes (pack m (length s % 2 ^ 32)) s

unfoldable pub as_str : Option (Unmarshall × Bytes) → Option (Unmarshall × Value)
as_str none = none
as_str (some (u, s)) = some (u, of_str s)

-- The value of an argument that the caller has declared and not set: `char` arrays and numbers
-- hold anything, a string is empty.
unfoldable pub read_str : Unmarshall × ℕ → Option (Unmarshall × Value)
unfolding as_str
read_str (u, sz) = as_str (if u.ok then rawbytes u sz [] else some (u, []))

-- `u >> x`; `none` where memory outside the buffer is read.
unfoldable pub read : Ty → Unmarshall → Option (Unmarshall × Value)
read bool u = let (u1, x) = rawbyte u in some (u1, of_bool (if x == 0 then false else true))
read u8 u = let (u1, x) = rawbyte u in some (u1, of_u8 (x % 256))
read u16 u =
    let (u1, a) = rawbyte u in
    let (u2, b) = rawbyte u1 in some (u2, of_u16 (a % 256 * 2 ^ 8 + b % 256))
read u32 u = let (u1, x) = unpack u in some (u1, of_u32 x)
read u64 u = let (u1, h) = unpack u in let (u2, l) = unpack u1 in some (u2, of_u64 (l + h * 2 ^ 32))
read str u = read_str (unpack u)

unfoldable pub write_all : Marshall → List Value → Marshall
write_all m [] = m
write_all m (v ∷ vs) = write_all (write m v) vs

unfoldable pub push : Value → Option (Unmarshall × List Value) → Option (Unmarshall × List Value)
push v none = none
push v (some (u, vs)) = some (u, v ∷ vs)

unfoldable pub read_all : List Ty → Unmarshall → Option (Unmarshall × List Value)
unfolding push
read_all [] u = some (u, [])
read_all (t ∷ ts) u = elim (read t u) [ none ↦ none | some (u1, v) ↦ push v (read_all ts u1) ]

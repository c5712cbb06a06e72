-- ===== src/Rpc/ContainerTests.antt =====
-- A map of two numbers that is written and read.
use lab_cse.Prelude.{ℕ, ◌≡◌, refl, Bool, some, List, [], ◌∷◌, ◌++◌, arith, ltb, length, replicate}
use lab_cse.Rpc.Marshall
use lab_cse.Rpc.Marshall.{Bytes, new_marshall, get_content, pack, grow, overwrite}
use lab_cse.Rpc.Unmarshall.{Unmarshall, take_content}
use lab_cse.Rpc.Values.{Ty, Value, of_bool, of_u8, of_u16, of_u32, of_u64, of_str, type_of, write}
use lab_cse.Rpc.Containers.{Pair, write_pairs, write_map, read_map}
use lab_cse.Rpc.MapTrips.{read_map-write_map}

abbrev mem : Bytes
mem = replicate 40 7

abbrev front : Bytes
front = replicate 24 0

-- `<` on `unsigned int`.
abbrev number : Value → ℕ
number (of_bool b) = 0
number (of_u8 n) = 0
number (of_u16 n) = 0
number (of_u32 n) = n
number (of_u64 n) = 0
number (of_str s) = 0

abbrev less : Value → Value → Bool
less a b = ltb (number a) (number b)

abbrev two : List Pair
two =
    record { key = of_u32 3; val = of_str (b'a' ∷ []) }
    ∷ record { key = of_u32 300; val = of_str [] }
    ∷ []

two_size : length (front ++ get_content (write_map (new_marshall mem) two)) ≡ 45
unfolding get_content write_map write_pairs write pack Marshall.rawbyte Marshall.rawbytes grow
    overwrite
two_size = refl

read_map-write_map_example :
    (u : Unmarshall) × (read_map less Ty.u32 Ty.str
        (take_content front (get_content (write_map (new_marshall mem) two)))
      ≡ some (u, two))
unfolding type_of
read_map-write_map_example =
    read_map-write_map less Ty.u32 Ty.str two mem front
      (refl, refl, omega arith, tt, (refl, refl, omega arith, tt, tt)) (tt, ((refl, refl, tt), tt))
      (omega arith) (omega arith) refl (omega (arith, two_size))

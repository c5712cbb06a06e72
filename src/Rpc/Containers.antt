-- ===== src/Rpc/Containers.antt =====
-- The operators `<<` and `>>` of rpc/marshall.h for vectors and maps. A map is the list of its
-- entries in the order of their keys, which `less` decides.
use lab_cse.Prelude.{
  ℕ, zero, suc, ◌%◌, ◌^◌, Bool, Option, none, some, List, [], ◌∷◌, ◌++◌, if◌then◌else◌, length,
}
use lab_cse.Rpc.Marshall.{Marshall, pack}
use lab_cse.Rpc.Unmarshall.{Unmarshall, unpack}
use lab_cse.Rpc.Values.{Ty, Value, write, write_all, read}

unfoldable pub write_vector : Marshall → List Value → Marshall
write_vector m v = write_all (pack m (length v % 2 ^ 32)) v

unfoldable pub with_value :
    {A : Type 0} → Option (Unmarshall × Value) → (Unmarshall → Value → Option A) → Option A
with_value none f = none
with_value (some (u, v)) f = f u v

-- `n` rounds of the loop; `none` where memory outside the buffer is read.
unfoldable pub read_times : ℕ → Ty → Unmarshall → List Value → Option (Unmarshall × List Value)
unfolding with_value
read_times zero t u v = some (u, v)
read_times (suc n) t u v = with_value (read t u) (λ u1 z. read_times n t u1 (v ++ (z ∷ [])))

-- The elements go behind those of `v`.
unfoldable pub read_vector : Ty → Unmarshall → List Value → Option (Unmarshall × List Value)
unfolding read_times
read_vector t u v = let (u1, n) = unpack u in read_times n t u1 v

pub record Pair : Type 0 where
  pub key : Value
  pub val : Value

unfoldable pub write_pairs : Marshall → List Pair → Marshall
write_pairs m [] = m
write_pairs m (p ∷ d) = write_pairs (write (write m p.key) p.val) d

unfoldable pub write_map : Marshall → List Pair → Marshall
unfolding write_pairs
write_map m d = write_pairs (pack m (length d % 2 ^ 32)) d

-- `d[a] = b`
unfoldable pub assign : (Value → Value → Bool) → List Pair → Pair → List Pair
assign less [] p = p ∷ []
assign less (q ∷ d) p =
    let rest = assign less d p in
    if less p.key q.key
    then p ∷ (q ∷ d)
    else (if less q.key p.key then q ∷ rest else record q { val = p.val } ∷ d)

unfoldable pub read_pairs :
    (Value → Value → Bool) → ℕ → Ty → Ty → Unmarshall → List Pair → Option (Unmarshall × List Pair)
unfolding assign with_value
read_pairs less zero s t u d = some (u, d)
read_pairs less (suc n) s t u d = with_value (read s u) (λ u1 a.
    with_value (read t u1)
      (λ u2 b. read_pairs less n s t u2 (assign less d (record { key = a; val = b }))))

unfoldable pub read_map :
    (Value → Value → Bool) → Ty → Ty → Unmarshall → Option (Unmarshall × List Pair)
unfolding read_pairs
read_map less s t u = let (u1, n) = unpack u in read_pairs less n s t u1 []

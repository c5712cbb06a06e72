-- ===== src/Rpc/MapTrips.antt =====
-- Maps are read as they were written.
use mathlib.Core.List.{append_assoc, append-nil}
use lab_cse.Prelude.{
  ◌+◌, ◌%◌, ◌^◌, ◌<◌, ◌≤◌, ◌≡◌, refl, ap, sym, subst, ◌∙◌, Bool, true, false, some, List, [], ◌∷◌,
  ◌++◌, arith, length,
}
use lab_cse.Rpc.Marshall.{Bytes, Marshall, new_marshall, rpc_header_sz, get_content, pack}
use lab_cse.Rpc.Unmarshall.{Unmarshall, take_content}
use lab_cse.Rpc.Values.{Ty, Value, type_of, write, write_all, read}
use lab_cse.Rpc.Written.{
  bytes_of, encode, encode_all, Writes, Writes-append, IsValid, Writes-IsValid, pack-Writes,
  write-Writes, write_all-Writes,
}
use lab_cse.Rpc.Reading.{Fits, Ahead, advance, advance-Ahead, unpack-Ahead, length-bytes_of}
use lab_cse.Rpc.Delivery.{new-IsValid}
use lab_cse.Rpc.Containers.{with_value, Pair, write_pairs, write_map, assign, read_pairs, read_map}
use lab_cse.Rpc.ContainerTrips.{further, read_one, small, get_content-Writes, take_content-Ahead}

encode_pairs : List Pair → Bytes
encode_pairs [] = []
encode_pairs (p ∷ d) = encode p.key ++ (encode p.val ++ encode_pairs d)

-- Keys of one type and values of another, which fit them.
abbrev pub AllPairs : Ty → Ty → List Pair → Type 0
AllPairs s t [] = Unit {0}
AllPairs s t (p ∷ d) =
    (type_of p.key ≡ s) × (type_of p.val ≡ t) × Fits p.key × Fits p.val × AllPairs s t d

-- The keys of `d` are less than that of `p`, and it is not less than they are.
abbrev pub IsBelow : (Value → Value → Bool) → List Pair → Pair → Type 0
IsBelow less [] p = Unit {0}
IsBelow less (q ∷ d) p = (less p.key q.key ≡ false) × (less q.key p.key ≡ true) × IsBelow less d p

-- The entries come behind those of `d`, in the order of their keys.
abbrev pub IsAscending : (Value → Value → Bool) → List Pair → List Pair → Type 0
IsAscending less d [] = Unit {0}
IsAscending less d (p ∷ r) = IsBelow less d p × IsAscending less (d ++ (p ∷ [])) r

assign-last :
    (less : Value → Value → Bool) (d : List Pair) (p : Pair)
    → IsBelow less d p
    → assign less d p ≡ d ++ (p ∷ [])
unfolding assign
assign-last less [] p b = refl
assign-last less (q ∷ d) p b = rw (b.0, b.1) (ap (λ r. q ∷ r) (assign-last less d p b.2))

write_pairs-Writes :
    (m : Marshall) (d : List Pair) → IsValid m → Writes m (encode_pairs d) (write_pairs m d)
unfolding encode_pairs write_pairs write_all encode_all
write_pairs-Writes m [] i = write_all-Writes m [] i
write_pairs-Writes m (p ∷ d) i =
    let k = write-Writes m p.key i in
    let i1 = Writes-IsValid (encode p.key) k i in
    let v = write-Writes (write m p.key) p.val i1 in
    let rest =
      write_pairs-Writes (write (write m p.key) p.val) d (Writes-IsValid (encode p.val) v i1) in
    Writes-append (encode p.key) (encode p.val ++ encode_pairs d) k
      (Writes-append (encode p.val) (encode_pairs d) v rest)

read_pairs-Ahead :
    (less : Value → Value → Bool) (s t : Ty) (r d : List Pair) (u : Unmarshall) (rest : Bytes)
    → AllPairs s t r
    → IsAscending less d r
    → Ahead u (encode_pairs r ++ rest)
    → read_pairs less (length r) s t u d ≡ some (advance u (length (encode_pairs r)), d ++ r)
unfolding read_pairs with_value encode_pairs
read_pairs-Ahead less s t [] d u rest f o a =
    let e : u.ind ≡ u.ind + 0 = omega arith in
    ap (λ i. some (record u { ind = i }, d)) e
    ∙ ap (λ w. some (advance u 0, w)) (sym (append-nil d))
read_pairs-Ahead less s t (p ∷ r) d u rest f o a =
    let k = encode p.key in
    let v = encode p.val in
    let tail = encode_pairs r in
    let flat : (k ++ (v ++ tail)) ++ rest ≡ k ++ (v ++ (tail ++ rest)) = simp append_assoc in
    let (one, a1) =
      read_one s p.key u (v ++ (tail ++ rest)) f.0 f.2 (subst (λ q. Ahead u q) flat a) in
    let u1 = advance u (length k) in
    let (two, a2) = read_one t p.val u1 (tail ++ rest) f.1 f.3 a1 in
    let u2 = advance u1 (length v) in
    let d1 = d ++ (p ∷ []) in
    ap
      (λ x. with_value x (λ w a.
        with_value (read t w) (λ w2 b.
          read_pairs less (length r) s t w2 (assign less d (record { key = a; val = b })))))
      one
    ∙ ap
        (λ x. with_value x (λ w2 b.
          read_pairs less (length r) s t w2 (assign less d (record { key = p.key; val = b }))))
        two
    ∙ ap (read_pairs less (length r) s t u2) (assign-last less d p o.0)
    ∙ read_pairs-Ahead less s t r d1 u2 rest f.4 o.1 a2
    ∙ ap (λ w. some (w, d1 ++ r)) (further u1 v tail ∙ further u k (v ++ tail))
    ∙ ap (λ w. some (advance u (length (k ++ (v ++ tail))), w)) (append_assoc d (p ∷ []) r)

-- Let a map have fewer than 2 ^ 32 entries in the order of their keys, keys of one type and values
-- of another, which fit them. Where it is written to a new buffer and the content of the buffer is
-- taken in, with its header shorter than 2 ^ 31, the same map is read.
pub read_map-write_map :
    (less : Value → Value → Bool) (s t : Ty) (d : List Pair) (mem mem2 : Bytes)
    → AllPairs s t d
    → IsAscending less [] d
    → length d < 2 ^ 32
    → rpc_header_sz ≤ length mem
    → length mem2 ≡ rpc_header_sz
    → length (mem2 ++ get_content (write_map (new_marshall mem) d)) < 2 ^ 31
    → (u : Unmarshall) × (read_map less s t
          (take_content mem2 (get_content (write_map (new_marshall mem) d)))
        ≡ some (u, d))
unfolding write_map read_map
read_map-write_map less s t d mem mem2 f o lt h e lim =
    let head = bytes_of (length d) in
    let p = head ++ encode_pairs d in
    let m = new_marshall mem in
    let i = new-IsValid mem h in
    let first : Writes m head (pack m (length d % 2 ^ 32)) =
      subst (λ x. Writes m head (pack m x)) (sym (small (length d) lt))
        (pack-Writes m (length d) i) in
    let w =
      Writes-append head (encode_pairs d) first
        (write_pairs-Writes (pack m (length d % 2 ^ 32)) d (Writes-IsValid head first i)) in
    let same = get_content-Writes mem p (write_map m d) h w in
    let short : length (mem2 ++ p) < 2 ^ 31 = subst (λ q. length (mem2 ++ q) < 2 ^ 31) same lim in
    let u = take_content mem2 p in
    let a =
      subst (λ q. Ahead u q) (append_assoc head (encode_pairs d) [])
        (take_content-Ahead mem2 p e short) in
    let a2 = advance-Ahead u head (encode_pairs d ++ []) 4 (length-bytes_of (length d)) a in
    (
      advance (advance u 4) (length (encode_pairs d)),
      ap (λ q. read_map less s t (take_content mem2 q)) same
          ∙ rw (unpack-Ahead u (length d) (encode_pairs d ++ []) lt a)
              (read_pairs-Ahead less s t d [] (advance u 4) [] f o a2),
    )

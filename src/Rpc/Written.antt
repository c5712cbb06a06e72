-- ===== src/Rpc/Written.antt =====
-- What `<<` writes, as bytes behind those that were written before; and the headers, which are
-- written in front of them.
use mathlib.Core.List.{append_assoc, append-nil}
use lab_cse.Prelude.{
  ℕ, zero, suc, ◌+◌, ◌-◌, ◌*◌, ◌/◌, ◌%◌, ◌^◌, ◌<◌, ◌≤◌, ◌≡◌, refl, ap, sym, subst, ◌∙◌, Bool, true,
  false, List, [], ◌∷◌, ◌++◌, arith, ltb, leb, ltb→lt, if◌then◌else◌, length, take, drop, replicate,
  length-append, length-take, length-drop, length-replicate, leb→le, drop-drop, take-append_length,
  drop-append_length,
}
use lab_cse.Rpc.Marshall.{Bytes, Marshall, grow, overwrite, rawbyte, rawbytes, pack}
use lab_cse.Rpc.Values.{Value, of_bool, of_u8, of_u16, of_u32, of_u64, of_str, write, write_all}

-- The bytes of a number of 32 bits in network order.
unfoldable pub bytes_of : ℕ → Bytes
bytes_of x = (x / 2 ^ 24 % 256) ∷ (x / 2 ^ 16 % 256) ∷ (x / 2 ^ 8 % 256) ∷ (x % 256) ∷ []

unfoldable pub encode : Value → Bytes
unfolding bytes_of
encode (of_bool b) = (if b then 1 else 0) ∷ []
encode (of_u8 x) = (x % 256) ∷ []
encode (of_u16 x) = (x / 2 ^ 8 % 256) ∷ (x % 256) ∷ []
encode (of_u32 x) = bytes_of x
encode (of_u64 x) = bytes_of (x / 2 ^ 32 % 2 ^ 32) ++ bytes_of (x % 2 ^ 32)
encode (of_str s) = bytes_of (length s % 2 ^ 32) ++ s

unfoldable pub encode_all : List Value → Bytes
encode_all [] = []
encode_all (v ∷ vs) = encode v ++ encode_all vs

take_front : (n : ℕ) (xs ys : Bytes) → length xs ≡ n → take n (xs ++ ys) ≡ xs
take_front n xs ys e = subst (λ k. take k (xs ++ ys) ≡ xs) e (take-append_length xs ys)

drop_front : (n : ℕ) (xs ys : Bytes) → length xs ≡ n → drop n (xs ++ ys) ≡ ys
drop_front n xs ys e = subst (λ k. drop k (xs ++ ys) ≡ ys) e (drop-append_length xs ys)

-- Bytes written at a place of the memory: what stands in front stays, and, if there was room for
-- them, what stands behind.
pub record Put (buf : Bytes) (i : ℕ) (p : Bytes) (new : Bytes) : Type 0 where
  pub front : take (i + length p) new ≡ take i buf ++ p
  pub room : i + length p ≤ length new
  pub behind : i + length p ≤ length buf → drop (i + length p) new ≡ drop (i + length p) buf
  pub size : i + length p ≤ length buf → length new ≡ length buf

overwrite-Put : (buf : Bytes) (i : ℕ) (p : Bytes) → i ≤ length buf → Put buf i p (overwrite buf i p)
unfolding overwrite
overwrite-Put buf i p h =
    let a = take i buf in
    let la : length a ≡ i = omega (arith, length-take {0} i buf) in
    let r = drop (i + length p) buf in
    let lap : length (a ++ p) ≡ i + length p = omega (arith, la, length-append {0} a p) in
    let whole : length (a ++ (p ++ r)) ≡ i + length p + (length buf - (i + length p)) = omega (
      arith,
      la,
      length-append {0} a (p ++ r),
      length-append {0} p r,
      length-drop {0} (i + length p) buf,
    ) in
    record {
      front = rw (← append_assoc a p r) (take_front (i + length p) (a ++ p) r lap);
      room = omega (arith, whole);
      behind = λ k. rw (← append_assoc a p r) (drop_front (i + length p) (a ++ p) r lap);
      size = λ k. omega (arith, whole);
    }

length-grow : (capa : ℕ) (buf : Bytes) → length (grow capa buf) ≡ length buf + (capa - length buf)
unfolding grow
length-grow capa buf = omega (
  arith,
  length-append {0} buf (replicate (capa - length buf) 0),
  length-replicate {0} {A = ℕ} (capa - length buf) 0,
)

take_prefix : (i : ℕ) (xs ys : Bytes) → i ≤ length xs → take i (xs ++ ys) ≡ take i xs
take_prefix zero xs ys h = refl
take_prefix (suc i) [] ys h = absurd (omega arith)
take_prefix (suc i) (x ∷ xs) ys h = ap (◌∷◌ x) (take_prefix i xs ys (omega arith))

take-grow : (i capa : ℕ) (buf : Bytes) → i ≤ length buf → take i (grow capa buf) ≡ take i buf
unfolding grow
take-grow i capa buf h = take_prefix i buf (replicate (capa - length buf) 0) h

-- The memory grows only where there is no room.
grown-Put :
    (buf : Bytes) (i : ℕ) (p : Bytes) (capa : ℕ) (full : Bool)
    → i ≤ length buf
    → (full ≡ true → length buf < i + length p)
    → Put buf i p (overwrite (if full then grow capa buf else buf) i p)
grown-Put buf i p capa false h f = overwrite-Put buf i p h
grown-Put buf i p capa true h f =
    let q = overwrite-Put (grow capa buf) i p (omega (arith, length-grow capa buf)) in
    record {
      front = rw (← take-grow i capa buf h) q.front;
      room = q.room;
      behind = λ k. absurd (omega (arith, f refl));
      size = λ k. absurd (omega (arith, f refl));
    }

-- `p` is written at the place of the next byte.
pub record Writes (m : Marshall) (p : Bytes) (m' : Marshall) : Type 0 where
  pub ind : m'.ind ≡ m.ind + length p
  pub put : Put m.buf m.ind p m'.buf

-- What stands behind is unchanged further back as well.
further :
    (buf new : Bytes) (i n k : ℕ) → drop i new ≡ drop i buf → i + n ≡ k → drop k new ≡ drop k buf
further buf new i n k same e =
    sym (drop-drop n i k new e) ∙ (ap (drop n) same ∙ drop-drop n i k buf e)

pub Writes-append :
    {m m' m'' : Marshall} (p q : Bytes) → Writes m p m' → Writes m' q m'' → Writes m (p ++ q) m''
Writes-append {m} {m'} {m''} p q v w =
    let l = length-append {0} p q in
    let k : ℕ = m.ind + length (p ++ q) in
    let e : m'.ind + length q ≡ k = omega (arith, v.ind, l) in
    let f : m.ind + length p + length q ≡ k = omega (arith, l) in
    record {
      ind = omega (arith, v.ind, w.ind, l);
      put = record {
        front =
            ap (λ n. take n m''.buf) (sym e)
            ∙ w.put.front
            ∙ ap (λ t. t ++ q) (ap (λ n. take n m'.buf) v.ind ∙ v.put.front)
            ∙ append_assoc (take m.ind m.buf) p q;
        room = omega (arith, e, w.put.room);
        behind = λ h.
            ap (λ n. drop n m''.buf) (sym e)
            ∙ w.put.behind (omega (arith, e, v.put.size (omega (arith, l))))
            ∙ ap (λ n. drop n m'.buf) e
            ∙ further m.buf m'.buf (m.ind + length p) (length q) k (v.put.behind (omega (arith, l)))
                f;
        size = λ h.
            w.put.size (omega (arith, e, v.put.size (omega (arith, l))))
            ∙ v.put.size (omega (arith, l));
      };
    }

-- The constructor leaves such a state, and every write keeps it.
pub record IsValid (m : Marshall) : Type 0 where
  pub placed : 0 < m.ind
  pub within : m.ind ≤ length m.buf

pub Writes-IsValid : {m m' : Marshall} (p : Bytes) → Writes m p m' → IsValid m → IsValid m'
Writes-IsValid p w v = record {
  placed = omega (arith, w.ind, v.placed);
  within = omega (arith, w.ind, w.put.room);
}

pub rawbyte-Writes : (m : Marshall) (x : ℕ) → IsValid m → Writes m ((x % 256) ∷ []) (rawbyte m x)
unfolding rawbyte
rawbyte-Writes m x v = record {
  ind = refl;
  put =
      grown-Put m.buf m.ind ((x % 256) ∷ []) (2 * length m.buf) (leb (length m.buf) m.ind) v.within
        (λ e. omega (arith, leb→le (length m.buf) m.ind e));
}

pub rawbytes-Writes : (m : Marshall) (p : Bytes) → IsValid m → Writes m p (rawbytes m p)
unfolding rawbytes
rawbytes-Writes m p v = record {
  ind = refl;
  put =
      grown-Put m.buf m.ind p _ (ltb (length m.buf) (m.ind + length p)) v.within
        (λ e. ltb→lt (length m.buf) (m.ind + length p) e);
}

rawbyte-snoc :
    {m m' : Marshall} (p : Bytes) (x : ℕ)
    → IsValid m
    → Writes m p m'
    → Writes m (p ++ ((x % 256) ∷ [])) (rawbyte m' x)
rawbyte-snoc {m} {m'} p x v w =
    Writes-append p ((x % 256) ∷ []) w (rawbyte-Writes m' x (Writes-IsValid p w v))

pub pack-Writes : (m : Marshall) (x : ℕ) → IsValid m → Writes m (bytes_of x) (pack m x)
unfolding pack bytes_of
pack-Writes m x v =
    let a : ℕ = x / 2 ^ 24 % 256 in
    let b : ℕ = x / 2 ^ 16 % 256 in
    let c : ℕ = x / 2 ^ 8 % 256 in
    let d : ℕ = x % 256 in
    let w = rawbyte-snoc ((a % 256) ∷ (b % 256) ∷ (c % 256) ∷ []) d v (
      rawbyte-snoc ((a % 256) ∷ (b % 256) ∷ []) c v
        (rawbyte-snoc ((a % 256) ∷ []) b v (rawbyte-Writes m a v))) in
    let same : (a % 256) ∷ (b % 256) ∷ (c % 256) ∷ (d % 256) ∷ [] ≡ a ∷ b ∷ c ∷ d ∷ [] =
      ground arith in
    subst (λ p. Writes m p (pack m x)) same w

pub write-Writes : (m : Marshall) (x : Value) → IsValid m → Writes m (encode x) (write m x)
unfolding write encode
write-Writes m (of_bool true) v = rawbyte-Writes m 1 v
write-Writes m (of_bool false) v = rawbyte-Writes m 0 v
write-Writes m (of_u8 x) v = rawbyte-Writes m x v
write-Writes m (of_u16 x) v =
    let a : ℕ = x / 2 ^ 8 % 256 in
    let same : (a % 256) ∷ (x % 256 % 256) ∷ [] ≡ a ∷ (x % 256) ∷ [] = ground arith in
    subst (λ p. Writes m p (write m (of_u16 x))) same
      (rawbyte-snoc ((a % 256) ∷ []) (x % 256) v (rawbyte-Writes m a v))
write-Writes m (of_u32 x) v = pack-Writes m x v
write-Writes m (of_u64 x) v =
    let h : ℕ = x / 2 ^ 32 % 2 ^ 32 in
    let w = pack-Writes m h v in
    Writes-append (bytes_of h) (bytes_of (x % 2 ^ 32)) w
      (pack-Writes (pack m h) (x % 2 ^ 32) (Writes-IsValid (bytes_of h) w v))
write-Writes m (of_str s) v =
    let n : ℕ = length s % 2 ^ 32 in
    let w = pack-Writes m n v in
    Writes-append (bytes_of n) s w (rawbytes-Writes (pack m n) s (Writes-IsValid (bytes_of n) w v))

pub write_all-Writes :
    (m : Marshall) (xs : List Value) → IsValid m → Writes m (encode_all xs) (write_all m xs)
unfolding write_all encode_all
write_all-Writes m [] v = record {
  ind = omega arith;
  put = record {
    front = sym (append-nil _) ∙ ap (λ k. take k m.buf ++ []) (omega arith);
    room = omega (arith, v.within);
    behind = λ k. refl;
    size = λ k. refl;
  };
}
write_all-Writes m (x ∷ xs) v =
    let w = write-Writes m x v in
    Writes-append (encode x) (encode_all xs) w
      (write_all-Writes (write m x) xs (Writes-IsValid (encode x) w v))

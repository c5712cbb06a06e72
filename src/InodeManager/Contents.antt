-- ===== src/InodeManager/Contents.antt =====
-- The files of a disk: what it means that an inode holds a content, and which changes of the disk
-- keep it.
use Prim.Native.Nat.{min}
use lab_cse.Prelude.{
  ℕ, zero, suc, ◌+◌, ◌-◌, ◌*◌, ◌<◌, ◌≤◌, ◌≡◌, refl, ap, sym, subst, ◌∙◌, some, List, [], ◌∷◌, ◌++◌,
  arith, length, take, length-take, take-append_length, Bool-cases, inl, inr, ltb, ltb→lt,
  ltb_false→le, get_or,
}
use lab_cse.Disk.{Block, block_size}
use lab_cse.BlockManager.{BlockManager}
use lab_cse.BlockManager.Format.{reserved}
use lab_cse.Inode.{Inode, ndirect, nindirect, words}
use lab_cse.Inode.Layout.{Fits}
use lab_cse.Inode.Range.{load-Fits}
use lab_cse.InodeManager.Table.{get_inode}
use lab_cse.InodeManager.Files.{blocks_of, max_blocks, indirect_of, copy_out}
use lab_cse.InodeManager.Loops.{Holds, Holds-frame}
use lab_cse.InodeManager.Space.{Sound, AllData}
use lab_cse.InodeManager.Mapping.{Maps, copy_out-Holds}
use lab_cse.InodeManager.Placement.{Owns}
use lab_cse.InodeManager.Inodes.{get_inode-some}
use lab_cse.InodeManager.RoundTrip.{Stored, Maps-frame, elem-data}

-- Inode `i` of a sound disk is in use below 1023, has this type, and names data blocks that hold the
-- content, of at most 160 blocks.
pub record IsFile (bm : BlockManager) (i kind : ℕ) (content : Block) : Type 0 where
  pub sound : Sound bm
  pub low : i + 11 < reserved
  pub ino : Inode
  pub got : get_inode bm i ≡ some ino
  pub kind_is : ino.kind ≡ kind
  pub size : ino.size ≡ length content
  pub le : length content ≤ max_blocks * block_size
  pub ts : List ℕ
  pub maps : Maps bm.d.blocks ino (blocks_of (length content)) ts
  pub holds : Holds bm.d.blocks ts content
  pub count : length ts ≡ blocks_of (length content)
  pub data_blocks : AllData ts
  pub above : ndirect < blocks_of (length content) → reserved ≤ indirect_of ino

prefix :
    (m : ℕ) (xs ts junk : List ℕ)
    → take m xs ≡ ts ++ junk
    → length ts ≤ m
    → take (length ts) xs ≡ ts
prefix m xs [] junk e h = refl
prefix zero xs (t ∷ ts) junk e h = absurd (omega arith)
prefix (suc m) [] (t ∷ ts) junk e h = cc e
prefix (suc m) (x ∷ xs) (t ∷ ts) junk e h =
    let first : x ≡ t = cc e in
    let rest : take m xs ≡ ts ++ junk = cc e in
    ap (λ l. x ∷ l) (prefix m xs ts junk rest (omega arith)) ∙ ap (λ y. y ∷ ts) first

less : (a b : ℕ) → suc a - suc b ≡ a - b
less a b = omega arith

-- The list goes on behind `xs`.
split :
    (xs ys ts junk : List ℕ)
    → xs ++ ys ≡ ts ++ junk
    → length xs ≤ length ts
    → (rest : List ℕ) × (ts ≡ xs ++ rest) × (take (length ts - length xs) ys ≡ rest)
split [] ys ts junk e h =
    let all : length ts - 0 ≡ length ts = omega arith in
    (ts, refl, ap (λ n. take n ys) all ∙ ap (take (length ts)) e ∙ take-append_length {0} ts junk)
split (x ∷ xs) ys [] junk e h = absurd (omega arith)
split (x ∷ xs) ys (t ∷ ts) junk e h =
    let first : x ≡ t = cc e in
    let tail : xs ++ ys ≡ ts ++ junk = cc e in
    let (rest, g, k) = split xs ys ts junk tail (omega arith) in
    (
      rest,
      ap (λ l. t ∷ l) g ∙ ap (λ y. y ∷ (xs ++ rest)) (sym first),
      ap (λ n. take n ys) (less (length ts) (length xs)) ∙ k,
    )

AllData-append : (xs ys : List ℕ) → AllData (xs ++ ys) → AllData xs × AllData ys
AllData-append [] ys d = (tt, d)
AllData-append (x ∷ xs) ys (lo, hi, d) = let (a, b) = AllData-append xs ys d in ((lo, hi, a), b)

few_owned :
    (ino : Inode) (n : ℕ) (ts junk : List ℕ)
    → n ≤ ndirect
    → take ndirect ino.blocks ≡ ts ++ junk
    → length ts ≡ n
    → AllData ts
    → AllData (take (min n ndirect) ino.blocks)
few_owned ino n ts junk le e c d =
    let all : min n ndirect ≡ length ts = omega (arith, c) in
    subst AllData
      (sym
        (ap (λ k. take k ino.blocks) all ∙ prefix ndirect ino.blocks ts junk e (omega (arith, c))))
      d

-- The blocks of a file are data blocks.
pub IsFile-Owns :
    {bm : BlockManager} {i kind : ℕ} {content : Block}
    → (f : IsFile bm i kind content) → Owns bm f.ino (blocks_of f.ino.size)
IsFile-Owns {bm} {i} {kind} {content} f =
    let n = blocks_of (length content) in
    let g = get_inode-some bm i f.ino f.sound f.got in
    let fit : Fits f.ino =
      rw g.1 (load-Fits (bm.d.blocks (i + 11)) (f.sound.disk (i + 11)).bytes) in
    let owned : Owns bm f.ino n = elim (Bool-cases (ltb ndirect n)) [
      | inr few ↦
          let le = ltb_false→le ndirect n few in
          let (junk, e) = f.maps.few le in
          record {
            direct = few_owned f.ino n f.ts junk le e f.count f.data_blocks;
            indirect = λ h. absurd (omega (arith, le));
          }
      | inl many ↦
          let lt = ltb→lt ndirect n many in
          let (junk, e, hi, _) = f.maps.many lt in
          let front : length (take ndirect f.ino.blocks) ≡ ndirect =
            omega (arith, length-take {0} ndirect f.ino.blocks, fit.count) in
          let (rest, whole, k) =
            split (take ndirect f.ino.blocks) (words nindirect (bm.d.blocks (indirect_of f.ino)))
              f.ts junk e (omega (arith, front, f.count)) in
          let (a, b) =
            AllData-append (take ndirect f.ino.blocks) rest (subst AllData whole f.data_blocks) in
          let direct_ones : min n ndirect ≡ ndirect = omega arith in
          let behind : length f.ts - length (take ndirect f.ino.blocks) ≡ n - ndirect =
            omega (arith, front, f.count) in
          record {
            direct = subst (λ m. AllData (take m f.ino.blocks)) (sym direct_ones) a;
            indirect = λ h. (
              f.above lt,
              hi,
              subst AllData
                  (sym k
                    ∙ ap (λ m. take m (words nindirect (bm.d.blocks (indirect_of f.ino)))) behind)
                  b,
            );
          }
    ] in
    subst (λ m. Owns bm f.ino (blocks_of m)) (sym f.size) owned

-- A file stays when its inode keeps its type, size and blocks, and only reserved blocks change.
pub IsFile-frame :
    {bm : BlockManager} (bm' : BlockManager) {i kind : ℕ} {content : Block}
    (f : IsFile bm i kind content) (ino' : Inode)
    → Sound bm'
    → get_inode bm' i ≡ some ino'
    → ino'.kind ≡ f.ino.kind
    → ino'.size ≡ f.ino.size
    → ino'.blocks ≡ f.ino.blocks
    → ((b : ℕ) → reserved ≤ b → bm'.d.blocks b ≡ bm.d.blocks b)
    → IsFile bm' i kind content
IsFile-frame {bm} bm' {i} {kind} {content} f ino' s got k n e same = record {
  sound = s;
  low = f.low;
  ino = ino';
  got = got;
  kind_is = k ∙ f.kind_is;
  size = n ∙ f.size;
  le = f.le;
  ts = f.ts;
  maps =
      Maps-frame bm.d.blocks bm'.d.blocks f.ino ino' (blocks_of (length content)) f.ts e f.above
        (λ b h q. same b (rw q (f.above h))) f.maps;
  holds =
      Holds-frame bm.d.blocks bm'.d.blocks f.ts content
        (λ b q. same b (elem-data b f.ts f.data_blocks q).0) f.holds;
  count = f.count;
  data_blocks = f.data_blocks;
  above = λ h. subst (λ bs. reserved ≤ get_or bs ndirect 0) (sym e) (f.above h);
}

-- An inode of size 0 holds the empty content.
pub empty-IsFile :
    (bm : BlockManager) (i : ℕ) (ino : Inode)
    → Sound bm
    → i + 11 < reserved
    → get_inode bm i ≡ some ino
    → ino.size ≡ 0
    → IsFile bm i ino.kind []
empty-IsFile bm i ino s low got z = record {
  sound = s;
  low = low;
  ino = ino;
  got = got;
  kind_is = refl;
  size = z;
  le = omega arith;
  ts = [];
  maps = record { few = λ h. (take ndirect ino.blocks, refl); many = λ h. absurd (omega arith) };
  holds = tt;
  count = refl;
  data_blocks = tt;
  above = λ h. absurd (omega arith);
}

pub Stored-IsFile :
    {bm bm' : BlockManager} {i kind : ℕ} {content : Block} {ino' : Inode} {ts : List ℕ}
    → Stored bm i content bm' ino' ts
    → i + 11 < reserved
    → length content ≤ max_blocks * block_size
    → ino'.kind ≡ kind
    → IsFile bm' i kind content
Stored-IsFile {ino' = ino'} {ts = ts} t low le k = record {
  sound = t.sound;
  low = low;
  ino = ino';
  got = t.got;
  kind_is = k;
  size = t.size;
  le = le;
  ts = ts;
  maps = t.maps;
  holds = t.holds;
  count = t.count;
  data_blocks = t.data_blocks;
  above = t.above;
}

pub copy_out-IsFile :
    {bm : BlockManager} {i kind : ℕ} {content : Block} (f : IsFile bm i kind content)
    (res buf indnum : Block)
    → length res ≡ length content
    → copy_out bm f.ino res buf indnum ≡ content
copy_out-IsFile {bm} {content = content} f res buf indnum e =
    copy_out-Holds bm f.ino (blocks_of (length content)) f.ts content res buf indnum f.sound.disk
      f.maps f.holds f.size e (omega (arith, f.le))

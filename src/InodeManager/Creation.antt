-- ===== src/InodeManager/Creation.antt =====
-- `alloc_inode` takes the first inode that is free.
use lab_cse.Prelude.{
  ℕ, zero, suc, ◌+◌, ◌-◌, ◌%◌, ◌^◌, ◌<◌, ◌≤◌, ◌≡◌, ◌≢◌, refl, subst, ◌∙◌, ◌⊎◌, true, false, none,
  some, ==_refl, ltb, ltb→lt, ltb_false→le, ◌==◌, arith, Bool-cases, inl, inr,
}
use lab_cse.Disk.{zero_block}
use lab_cse.BlockManager.{BlockManager, inode_num, write_block, format}
use lab_cse.BlockManager.Bitmap.{read_whole, blocks-write, blocks-write_ne}
use lab_cse.Inode.{Inode, load, store, words, zero_inode}
use lab_cse.Inode.Layout.{Fits, load-store, store-IsBlock}
use lab_cse.Inode.Range.{load-Fits}
use lab_cse.InodeManager.Table.{alloc_inode_from, alloc_inode, get_inode, start, t_dir}
use lab_cse.InodeManager.Space.{Sound}
use lab_cse.InodeManager.Placement.{write_block-Sound}
use lab_cse.InodeManager.Inodes.{home, get_inode-load}
use lab_cse.InodeManager.Boot.{format-Sound, format_blocks}

-- Inode `j` was the first free one from `from` on. It has its type and time now; nothing else
-- changed.
pub record Created (bm bm' : BlockManager) (from j kind now : ℕ) : Type 0 where
  pub above : from ≤ j
  pub below : j < inode_num
  pub was_free : get_inode bm j ≡ none
  pub first : (i : ℕ) → from ≤ i → i < j → get_inode bm i ≢ none
  pub sound : Sound bm'
  pub is_now :
      get_inode bm' j
      ≡ some (record (load (bm.d.blocks (j + 11))) { kind = kind % 2 ^ 16; ctime = now })
  pub kept : (i : ℕ) → i ≢ j + 11 → bm'.d.blocks i ≡ bm.d.blocks i

is_free :
    (bm : BlockManager) (i : ℕ)
    → Sound bm
    → i < inode_num
    → ((load (bm.d.blocks (i + 11))).kind == 0) ≡ true
    → get_inode bm i ≡ none
is_free bm i s lt e = get_inode-load bm i s lt ∙ rw e refl

not_free :
    (bm : BlockManager) (i : ℕ)
    → Sound bm
    → i < inode_num
    → ((load (bm.d.blocks (i + 11))).kind == 0) ≡ false
    → get_inode bm i ≢ none
not_free bm i s lt e h = ground (arith, get_inode-load bm i s lt)

-- The inode that is taken.
taken :
    (bm : BlockManager) (j kind now : ℕ)
    → Sound bm
    → j < inode_num
    → (kind % 2 ^ 16 == 0) ≡ false
    → now < 2 ^ 32
    → ((load (bm.d.blocks (j + 11))).kind == 0) ≡ true
    → (let old = bm.d.blocks (j + 11) in
        Created bm
          (write_block bm
            (j + 11)
            (store old (record (load old) { kind = kind % 2 ^ 16; ctime = now })))
          j
          j
          kind
          now)
taken bm j kind now s lt k lnow e =
    let i = j + 11 in
    let old = bm.d.blocks i in
    let ino : Inode = record (load old) { kind = kind % 2 ^ 16; ctime = now } in
    let f = load-Fits old (s.disk i).bytes in
    let fits : Fits ino = record {
      kind = omega arith;
      size = f.size;
      atime = f.atime;
      mtime = f.mtime;
      ctime = lnow;
      blocks = f.blocks;
      count = f.count;
    } in
    let new = store old ino in
    let bm' = write_block bm i new in
    let s' =
      write_block-Sound bm i new s (omega arith) (store-IsBlock old ino fits.count (s.disk i)) in
    let at : bm'.d.blocks i ≡ new =
      ground (arith, blocks-write bm i i new (omega arith), ==_refl i) in
    let back : load new ≡ ino = load-store old ino fits (omega (arith, (s.disk i).size)) in
    record {
      above = omega arith;
      below = lt;
      was_free = is_free bm j s lt e;
      first = λ c lo hi. absurd (omega arith);
      sound = s';
      is_now = get_inode-load bm' j s' lt ∙ rw (at, back, k) refl;
      kept = λ c ne. blocks-write_ne bm i c new (ground arith);
    }

pub first_or_later : (n i : ℕ) → n ≤ i → (i ≡ n) ⊎ (n + 1 ≤ i)
first_or_later n i h = elim (Bool-cases (ltb n i)) [
  | inl e ↦ inr (omega (arith, ltb→lt n i e))
  | inr e ↦ inl (omega (arith, ltb_false→le n i e))
]

-- One inode further back.
Created-back :
    {bm bm' : BlockManager} {from j kind now : ℕ}
    → get_inode bm from ≢ none
    → Created bm bm' (from + 1) j kind now
    → Created bm bm' from j kind now
Created-back {bm} {bm'} {from} {j} h c = record {
  above = omega (arith, c.above);
  below = c.below;
  was_free = c.was_free;
  first = λ i lo hi. elim (first_or_later from i lo) [ inl e ↦ rw e h | inr e ↦ c.first i e hi ];
  sound = c.sound;
  is_now = c.is_now;
  kept = c.kept;
}

alloc_inode_from-Created :
    (n inum : ℕ) (bm : BlockManager) (kind now : ℕ)
    → n + inum ≡ inode_num
    → Sound bm
    → (kind % 2 ^ 16 == 0) ≡ false
    → now < 2 ^ 32
    → (((i : ℕ) → inum ≤ i → i < inode_num → get_inode bm i ≢ none)
        × (alloc_inode_from n inum bm kind now ≡ (bm, 1)))
      ⊎ (let r = alloc_inode_from n inum bm kind now in Created bm r.0 inum r.1 kind now)
unfolding alloc_inode_from
alloc_inode_from-Created zero inum bm kind now e s k lnow =
    inl ((λ i lo hi. absurd (omega arith)), refl)
alloc_inode_from-Created (suc n) inum bm kind now e s k lnow =
    let lt : inum < inode_num = omega arith in
    let at = read_whole bm (inum + 11) zero_block (omega arith) in
    elim (Bool-cases ((load (bm.d.blocks (inum + 11))).kind == 0)) [
      | inl free ↦ rw (home bm inum s, at, free) (inr (taken bm inum kind now s lt k lnow free))
      | inr busy ↦
          let h = not_free bm inum s lt busy in
          rw (home bm inum s, at, busy)
            (elim (alloc_inode_from-Created n (inum + 1) bm kind now (omega arith) s k lnow) [
              | inl (all, same) ↦ inl (
                (λ i lo hi. elim (first_or_later inum i lo) [
                  | inl z ↦ rw z h
                  | inr z ↦ all i z hi
                ]),
                same,
              )
              | inr c ↦ inr (Created-back h c)
            ])
    ]

-- On a sound disk, `alloc_inode` of a type that is not 0 as a `short` either finds every inode
-- from 1 on in use, changes nothing and returns 1, or returns the first inode from 1 on that is
-- free, which then has the type and the time, and leaves the other blocks as they are.
pub alloc_inode-Created :
    (bm : BlockManager) (kind now : ℕ)
    → Sound bm
    → (kind % 2 ^ 16 == 0) ≡ false
    → now < 2 ^ 32
    → (((i : ℕ) → 1 ≤ i → i < inode_num → get_inode bm i ≢ none)
        × (alloc_inode bm kind now ≡ (bm, 1)))
      ⊎ Created bm (alloc_inode bm kind now).0 1 (alloc_inode bm kind now).1 kind now
unfolding alloc_inode
alloc_inode-Created bm kind now s k lnow =
    alloc_inode_from-Created (bm.sb.ninodes - 1) 1 bm kind now (omega (arith, s.ninodes)) s k lnow

pub load-zero_block : load zero_block ≡ zero_inode
unfolding load words
load-zero_block = refl

start_lem :
    (now : ℕ)
    → now < 2 ^ 32
    → Created format (alloc_inode format t_dir now).0 1 1 t_dir now
      × ((alloc_inode format t_dir now).1 ≡ 1)
start_lem now lnow =
    let free : get_inode format 1 ≡ none =
      get_inode-load format 1 format-Sound (omega arith)
      ∙ rw (format_blocks 12 (omega arith)) (rw load-zero_block refl) in
    elim (alloc_inode-Created format t_dir now format-Sound refl lnow) [
      | inl (all, _) ↦ absurd (all 1 (omega arith) (omega arith) free)
      | inr c ↦
          let e : (alloc_inode format t_dir now).1 ≡ 1 = elim (first_or_later 1 _ c.above) [
            | inl e ↦ e
            | inr e ↦ absurd (c.first 1 (omega arith) (omega arith) free)
          ] in
          (subst (λ j. Created format (alloc_inode format t_dir now).0 1 j t_dir now) e c, e)
    ]

-- The constructor does not exit: the root directory, a directory with the time and nothing else,
-- is inode 1 of the sound disk that it leaves, and no other block differs from a formatted disk.
pub start-Sound :
    (now : ℕ)
    → now < 2 ^ 32
    → (bm : BlockManager) × (start now ≡ some bm)
      × Sound bm
      × (get_inode bm 1 ≡ some (record zero_inode { kind = t_dir; ctime = now }))
      × ((i : ℕ) → i ≢ 12 → bm.d.blocks i ≡ format.d.blocks i)
unfolding start
start-Sound now lnow =
    let (c, e) = start_lem now lnow in
    (
      (alloc_inode format t_dir now).0,
      rw e refl,
      c.sound,
      c.is_now ∙ rw (format_blocks 12 (omega arith)) (rw load-zero_block refl),
      c.kept,
    )

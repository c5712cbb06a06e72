-- ===== src/ExtentServer/RoundTrip.antt =====
-- `get` after `put`, also from the start of the server.
use lab_cse.Prelude.{
  ℕ, ◌+◌, ◌*◌, ◌%◌, ◌^◌, ◌<◌, ◌≤◌, ◌≡◌, ◌≢◌, refl, ap, sym, subst, ◌∙◌, false, ◌==◌, none, some,
  length, arith, inl, inr,
}
use lab_cse.Disk.{Block, block_size, block_num}
use lab_cse.BlockManager.{BlockManager, format}
use lab_cse.BlockManager.Bitmap.{IsBlock, AllBytes}
use lab_cse.BlockManager.Format.{reserved}
use lab_cse.Inode.{Inode, load, zero_inode}
use lab_cse.InodeManager.Table.{get_inode, start, alloc_inode}
use lab_cse.InodeManager.Files.{blocks_of, max_blocks}
use lab_cse.InodeManager.Space.{Sound, unused}
use lab_cse.InodeManager.Placement.{Owns}
use lab_cse.InodeManager.Allocation.{needed}
use lab_cse.InodeManager.Inodes.{get_inode-load}
use lab_cse.InodeManager.Boot.{format_blocks, unused-format, unused_kept}
use lab_cse.InodeManager.Creation.{
  Created, alloc_inode-Created, start-Sound, first_or_later, load-zero_block,
}
use lab_cse.InodeManager.RoundTrip.{read_file-write_file}
use lab_cse.ExtentServer.{mask, create, put, get}

-- On a sound disk, let `id` without its upper bits be an inode in use below 1023 whose old blocks
-- are data blocks and at most 160, let the new content have at most 160 blocks, all bytes, and
-- let there be as many blocks not in use as it needs. Then `put` succeeds, the disk is sound
-- again, and `get` with memory of the content's length returns the content.
pub get-put :
    (im : BlockManager) (id : ℕ) (ino : Inode) (content block indnum res buf indnum2 : Block)
    (now now2 : ℕ)
    → Sound im
    → mask id + 11 < reserved
    → get_inode im (mask id) ≡ some ino
    → blocks_of ino.size ≤ max_blocks
    → Owns im ino (blocks_of ino.size)
    → AllBytes content
    → IsBlock block
    → length content ≤ max_blocks * block_size
    → now < 2 ^ 32
    → needed (blocks_of (length content)) ≤ unused block_num im
    → length res ≡ length content
    → (im' : BlockManager) × (put im id content block indnum now ≡ some im')
      × Sound im'
      × ((get im' id res buf indnum2 now2).1 ≡ content)
unfolding put get
get-put im id ino content block indnum res buf indnum2 now now2 s lt here old o bytes whole le lnow
      room e =
    let (im', w, s', r) =
      read_file-write_file im s (mask id) lt ino here old o content block indnum now bytes whole le
        lnow room res buf indnum2 now2 e in
    (im', w, s', rw (r, get) refl)

room_for_any : (n u : ℕ) → n ≤ max_blocks * block_size → max_blocks < u → needed (blocks_of n) ≤ u
room_for_any n u h k = ground arith

taken_root :
    (im : BlockManager) (j : ℕ) {ino : Inode}
    → get_inode im 1 ≡ some ino
    → j ≡ 1
    → get_inode im j ≡ none
    → j ≡ 2
taken_root im j root one free =
    absurd (let z = sym root ∙ (ap (get_inode im) (sym one) ∙ free) in cc)

-- The inode that `create` makes on a disk that holds no inode but the root.
pub created :
    (im : BlockManager) (kind now : ℕ) {root_inode : Inode}
    → Sound im
    → get_inode im 1 ≡ some root_inode
    → ((i : ℕ) → i ≢ 12 → im.d.blocks i ≡ format.d.blocks i)
    → (kind % 2 ^ 16 == 0) ≡ false
    → now < 2 ^ 32
    → Created im (create im kind now).0 1 2 kind now
      × ((create im kind now).1 ≡ 2)
      × (load (im.d.blocks 13) ≡ zero_inode)
unfolding create
created im kind now s root kept k lnow =
    let zero : load (im.d.blocks 13) ≡ zero_inode =
      rw (kept 13 (λ z. absurd (omega arith)), format_blocks 13 (omega arith)) load-zero_block in
    let free : get_inode im 2 ≡ none = get_inode-load im 2 s (omega arith) ∙ rw zero refl in
    elim (alloc_inode-Created im kind now s k lnow) [
      | inl (all, _) ↦ absurd (all 2 (omega arith) (omega arith) free)
      | inr c ↦
          let j = (alloc_inode im kind now).1 in
          let e : j ≡ 2 = elim (first_or_later 1 j c.above) [
            | inl one ↦ taken_root im j root one c.was_free
            | inr more ↦ elim (first_or_later 2 j more) [
              | inl two ↦ two
              | inr far ↦ absurd (c.first 2 (omega arith) (omega arith) free)
            ]
          ] in
          (subst (λ j. Created im (alloc_inode im kind now).0 1 j kind now) e c, e, zero)
    ]

-- On a new server, `create` of a type that is not 0 as a `short` makes inode 2, and `put` and
-- `get` of it give back any content of at most 160 blocks.
pub get-put-create :
    (kind now : ℕ) (content block indnum res buf indnum2 : Block)
    → (kind % 2 ^ 16 == 0) ≡ false
    → now < 2 ^ 32
    → AllBytes content
    → IsBlock block
    → length content ≤ max_blocks * block_size
    → length res ≡ length content
    → (im : BlockManager) × (im1 : BlockManager) × (im2 : BlockManager) × (start now ≡ some im)
      × (create im kind now ≡ (im1, 2))
      × (put im1 2 content block indnum now ≡ some im2)
      × ((get im2 2 res buf indnum2 now).1 ≡ content)
get-put-create kind now content block indnum res buf indnum2 k lnow bytes whole le e =
    let (im, st, s, root, kept) = start-Sound now lnow in
    let (c, two, zero) = created im kind now s root kept k lnow in
    let im1 = (create im kind now).0 in
    let ino : Inode = record zero_inode { kind = kind % 2 ^ 16; ctime = now } in
    let here : get_inode im1 2 ≡ some ino = c.is_now ∙ rw zero refl in
    let room : unused block_num im1 ≡ 31734 =
      unused_kept im im1 13 (omega arith) c.kept
      ∙ (unused_kept format im 12 (omega arith) kept ∙ unused-format) in
    let none_owned : Owns im1 ino 0 = record {
      direct = tt;
      indirect = λ h. absurd (omega arith);
    } in
    let (im2, w, _, r) =
      get-put im1 2 ino content block indnum res buf indnum2 now now c.sound (omega arith) here
        (omega arith) none_owned bytes whole le lnow
        (room_for_any (length content) (unused block_num im1) le (omega (arith, room))) e in
    (im, im1, im2, st, ap (λ j. (im1, j)) two, w, r)

-- ===== src/ExtentClient/RoundTrip.antt =====
-- `get` after `put`, by a client over the network.
use lab_cse.Prelude.{
  ℕ, ◌+◌, ◌*◌, ◌^◌, ◌<◌, ◌≤◌, ◌≡◌, ap, sym, subst, ◌∙◌, some, List, [], ◌∷◌, length, arith,
}
use lab_cse.Disk.{Block, block_size, block_num}
use lab_cse.BlockManager.{BlockManager}
use lab_cse.BlockManager.Bitmap.{IsBlock, AllBytes}
use lab_cse.BlockManager.Format.{reserved}
use lab_cse.Inode.{Inode}
use lab_cse.InodeManager.Table.{get_inode}
use lab_cse.InodeManager.Files.{blocks_of, max_blocks}
use lab_cse.InodeManager.Space.{Sound, unused}
use lab_cse.InodeManager.Placement.{Owns}
use lab_cse.InodeManager.Allocation.{needed}
use lab_cse.ExtentServer
use lab_cse.ExtentServer.{mask}
use lab_cse.ExtentServer.RoundTrip
use lab_cse.Rpc.Marshall.{ReqHeader}
use lab_cse.Rpc.Values.{type_of, Value, of_u32, of_u64, of_str}
use lab_cse.Rpc.Delivery.{IsReqHeader}
use lab_cse.Rpc.Remote.{Buffers, IsBuffers, request_message, reply_message, remote-method}
use lab_cse.ExtentClient.{
  Scratch, Server, proc_put, proc_get, put_method, get_method, registered, to_handler, call, put,
  get,
}

-- Both messages of a call are shorter than 2 ^ 31.
abbrev pub AreShort : Buffers → ReqHeader → List Value → Value → Type 0
AreShort b h args r =
    (length (request_message b h args) < 2 ^ 31) × (length (reply_message b h 0 r) < 2 ^ 31)

-- The header of a call of this procedure.
abbrev pub for_proc : ReqHeader → ℕ → ReqHeader
for_proc h proc = record h { proc = proc }

for_proc-IsReqHeader :
    (h : ReqHeader) (proc : ℕ) → IsReqHeader h → proc < 2 ^ 32 → IsReqHeader (for_proc h proc)
for_proc-IsReqHeader h proc head small = record {
  xid = head.xid;
  proc = small;
  clt_nonce = head.clt_nonce;
  srv_nonce = head.srv_nonce;
  xid_rep = head.xid_rep;
}

put_lem :
    (im : BlockManager) (b : Buffers) (h : ReqHeader) (sc : Scratch) (id r : ℕ) (content : Block)
    → IsBuffers b
    → IsReqHeader h
    → id < 2 ^ 64
    → sc.unset < 2 ^ 32
    → AreShort b (for_proc h proc_put) (of_u64 id ∷ (of_str content ∷ [])) (of_u32 sc.unset)
    → put b h sc (some im) id content r
      ≡ some (ExtentServer.put im id content sc.block sc.indnum sc.now, 0, of_u32 sc.unset)
unfolding put call to_handler registered put_method type_of
put_lem im b h sc id r content is head small bits short =
    remote-method (put_method sc) (some im) (of_u64 id ∷ (of_str content ∷ [])) (of_u32 r)
      (for_proc h proc_put) b is (for_proc-IsReqHeader h proc_put head (omega arith))
      (small, (tt, tt)) (omega arith) bits short.0 short.1

get_lem :
    (im : BlockManager) (b : Buffers) (h : ReqHeader) (sc : Scratch) (id : ℕ) (old : Block)
    → IsBuffers b
    → IsReqHeader h
    → id < 2 ^ 64
    → AreShort b
        (for_proc h proc_get)
        (of_u64 id ∷ [])
        (of_str (ExtentServer.get im id sc.res sc.block sc.indnum sc.now).1)
    → (let r = ExtentServer.get im id sc.res sc.block sc.indnum sc.now in
        get b h sc (some im) id old ≡ some (some r.0, 0, of_str r.1))
unfolding get call to_handler registered get_method type_of
get_lem im b h sc id old is head small short =
    remote-method (get_method sc) (some im) (of_u64 id ∷ []) (of_str old) (for_proc h proc_get) b is
      (for_proc-IsReqHeader h proc_get head (omega arith)) (small, tt) (omega arith) tt short.0
      short.1

-- On a sound disk, let `id` of 64 bits without its upper bits be an inode in use below 1023 whose old
-- blocks are data blocks and at most 160, let the new content have at most 160 blocks, all bytes,
-- and let there be as many blocks not in use as it needs. Then `put` by a client over the network
-- replies with the status OK, the disk of the server is sound again, and `get` by a client replies
-- with the status OK and the content, where their messages are shorter than 2 ^ 31, their buffers
-- have room for a header, and the handler of `get` has memory of the content's length.
pub get-put_remote :
    (im : BlockManager) (id : ℕ) (ino : Inode) (content old : Block) (b b2 : Buffers)
    (h h2 : ReqHeader) (sc sc2 : Scratch) (r : ℕ)
    → Sound im
    → mask id + 11 < reserved
    → get_inode im (mask id) ≡ some ino
    → blocks_of ino.size ≤ max_blocks
    → Owns im ino (blocks_of ino.size)
    → AllBytes content
    → IsBlock sc.block
    → length content ≤ max_blocks * block_size
    → sc.now < 2 ^ 32
    → needed (blocks_of (length content)) ≤ unused block_num im
    → length sc2.res ≡ length content
    → id < 2 ^ 64
    → sc.unset < 2 ^ 32
    → IsBuffers b
    → IsBuffers b2
    → IsReqHeader h
    → IsReqHeader h2
    → AreShort b (for_proc h proc_put) (of_u64 id ∷ (of_str content ∷ [])) (of_u32 sc.unset)
    → AreShort b2 (for_proc h2 proc_get) (of_u64 id ∷ []) (of_str content)
    → (im1 : BlockManager) × (s2 : Server) × (put b h sc (some im) id content r
        ≡ some (some im1, 0, of_u32 sc.unset))
      × Sound im1
      × (get b2 h2 sc2 (some im1) id old ≡ some (s2, 0, of_str content))
get-put_remote im id ino content old b b2 h h2 sc sc2 r s lt here le_old owns bytes whole le lnow
      room e small bits is is2 head head2 short short2 =
    let (im1, w, s1, g) =
      RoundTrip.get-put im id ino content sc.block sc.indnum sc2.res sc2.block sc2.indnum sc.now
        sc2.now s lt here le_old owns bytes whole le lnow room e in
    let got = ExtentServer.get im1 id sc2.res sc2.block sc2.indnum sc2.now in
    (
      im1,
      some got.0,
      put_lem im b h sc id r content is head small bits short
          ∙ ap (λ o. some (o, 0, of_u32 sc.unset)) w,
      s1,
      get_lem im1 b2 h2 sc2 id old is2 head2 small (
        short2.0,
        subst (λ t. length (reply_message b2 (for_proc h2 proc_get) 0 (of_str t)) < 2 ^ 31) (sym g)
            short2.1,
      )
          ∙ ap (λ t. some (some got.0, 0, of_str t)) g,
    )

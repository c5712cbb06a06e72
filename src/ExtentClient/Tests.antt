-- ===== src/ExtentClient/Tests.antt =====
-- A put and a get of a client over the network.
use lab_cse.Prelude.{ℕ, ◌≡◌, refl, some, [], ◌∷◌, arith, length, replicate}
use lab_cse.Disk.{zero_block}
use lab_cse.BlockManager.{BlockManager}
use lab_cse.BlockManager.Format.{zero_block-IsBlock}
use lab_cse.InodeManager.Space.{Sound}
use lab_cse.ExtentServer.Sample.{hello, memory, hello_bytes, file, disk, disk_lem, room, file-Owns}
use lab_cse.Rpc.Marshall
use lab_cse.Rpc.Marshall.{
  Bytes, ReqHeader, new_marshall, pack, pack_req_header, pack_reply_header, cstr,
}
use lab_cse.Rpc.Values.{of_u32, of_u64, of_str, write, write_all}
use lab_cse.Rpc.Calls.{request}
use lab_cse.Rpc.Delivery.{IsReqHeader}
use lab_cse.Rpc.Remote.{Buffers, IsBuffers, request_message, reply_message}
use lab_cse.ExtentClient.{Scratch, Server, proc_put, proc_get, put, get}
use lab_cse.ExtentClient.RoundTrip.{for_proc, get-put_remote}

abbrev mem : Bytes
mem = replicate 40 7

abbrev buffers : Buffers
buffers = record {
  request_mem = mem;
  request_sz = 0 ∷ 0 ∷ 0 ∷ 40 ∷ [];
  reply_mem = mem;
  reply_sz = 0 ∷ 0 ∷ 0 ∷ 40 ∷ [];
}

buffers-IsBuffers : IsBuffers buffers
buffers-IsBuffers = record {
  request_room = omega arith;
  request_front = refl;
  reply_room = omega arith;
  reply_front = refl;
}

abbrev header : ReqHeader
header = record { xid = 3; proc = 0; clt_nonce = 9; srv_nonce = 0; xid_rep = 2 }

header-IsReqHeader : IsReqHeader header
header-IsReqHeader = record {
  xid = omega arith;
  proc = omega arith;
  clt_nonce = omega arith;
  srv_nonce = omega arith;
  xid_rep = omega arith;
}

abbrev scratch : Scratch
scratch = record { block = zero_block; indnum = zero_block; res = memory; now = 9; unset = 5 }

abbrev id : ℕ
id = 2147483651

put_sizes :
    (length (request_message buffers (for_proc header proc_put) (of_u64 id ∷ (of_str hello ∷ [])))
      ≡ 38)
    × (length (reply_message buffers (for_proc header proc_put) 0 (of_u32 5)) ≡ 28)
unfolding request write_all write Marshall.rawbyte Marshall.rawbytes pack Marshall.grow
    Marshall.overwrite pack_req_header pack_reply_header cstr
put_sizes = (refl, refl)

get_sizes :
    (length (request_message buffers (for_proc header proc_get) (of_u64 id ∷ [])) ≡ 32)
    × (length (reply_message buffers (for_proc header proc_get) 0 (of_str hello)) ≡ 30)
unfolding request write_all write Marshall.rawbyte Marshall.rawbytes pack Marshall.grow
    Marshall.overwrite pack_req_header pack_reply_header cstr
get_sizes = (refl, refl)

get-put_remote_example :
    (im1 : BlockManager) × (s2 : Server) × (put buffers header scratch (some disk) id hello 0
      ≡ some (some im1, 0, of_u32 5))
    × Sound im1
    × (get buffers header scratch (some im1) id [] ≡ some (s2, 0, of_str hello))
get-put_remote_example =
    get-put_remote disk id file hello [] buffers buffers header header scratch scratch 0 disk_lem.0
      (omega arith) disk_lem.1 (omega arith) file-Owns hello_bytes zero_block-IsBlock (omega arith)
      (omega arith) (ground (arith, room)) refl (omega arith) (omega arith) buffers-IsBuffers
      buffers-IsBuffers header-IsReqHeader header-IsReqHeader
      (omega (arith, put_sizes.0), omega (arith, put_sizes.1))
      (omega (arith, get_sizes.0), omega (arith, get_sizes.1))

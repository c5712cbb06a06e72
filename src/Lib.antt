-- ===== src/Lib.antt =====
-- A verification library for the YFS lab: a file system whose blocks are kept by an extent server
-- and whose locks are kept by a lock server.
--
-- The parts, from below. A disk of blocks (`disk`) is shared out by a bitmap (`block_manager`);
-- `inode_manager` keeps a table of inodes and the content of files on it. `extent_server` answers
-- the requests of clients with the operations of `inode_manager`. `yfs_client` keeps directories as
-- the content of extents and takes a lock around every operation; the locks come from
-- `lock_client_cache`, which keeps those that `lock_server_cache` grants; the server calls clients
-- back to revoke a lock or to let them retry. `fuse.cc` turns the requests of the FUSE library into
-- operations of `yfs_client`. The servers are reached by the RPC library (`rpc/`): `rpcc` numbers
-- the requests of a client and takes the replies, `rpcs` hands each request to its handler and keeps
-- the replies for requests that come again, and `marshall` and `unmarshall` write and read their
-- arguments.
--
-- Which file models which part:
--   Disk.antt                 `disk` of inode_manager.h and inode_manager.cc; a buffer is an option,
--                             a byte a number below 256
--   BlockManager.antt         `block_manager` of the same files: `alloc_block`, `free_block`, the
--                             constructor (`format`) with the macros BBLOCK and IBLOCK
--   Inode.antt                `struct inode` as it lies in its block, little endian
--   InodeManager.antt         `inode_manager`: InodeManager/Table.antt has `alloc_inode`,
--                             `free_inode`, `get_inode`, `put_inode`, `getattr` and the constructor
--                             (`start`); InodeManager/Files.antt has `read_file`, `write_file` and
--                             `remove_file`, split into the loops they are made of
--   ExtentServer.antt         `extent_server` of extent_server.cc; ExtentServer/Files.antt and
--                             InodeManager/Contents.antt say what a file on the disk is
--   ExtentClient.antt         the calls of extent_client.cc over the network, but `getattr`, with the
--                             handlers that extent_smain.cc registers
--   Yfs.antt                  yfs_client.cc: Yfs/Format.antt has `filename`, `n2i`, the loops of
--                             `_readdir` and `_lookup` and the entries that are added,
--                             Yfs/Bytes.antt what `_setattr`, `_read` and `_write` do to content,
--                             Yfs/Operations.antt `_isfile` to `_readlink`, Yfs/Locked.antt `isfile`
--                             to `readlink`; Yfs/Extents.antt is the interface of the two servers,
--                             and Yfs/Server.antt the extent server behind extent_client.cc as yfs
--                             clients meet it
--   LockServer.antt           `lock_server` of lock_server.h and lock_server.cc: a handler up to a
--                             wait is a step, which is `none` where it waits
--   LockServerCache.antt      `lock_server_cache` of lock_server_cache.h and lock_server_cache.cc:
--                             each handler up to the unlock of the mutex is a step, and the calls of
--                             clients that follow it are steps of their own
--   LockClientCache.antt      `lock_client_cache` of lock_client_cache.h and lock_client_cache.cc:
--                             each handler is cut where it lets go of the mutex;
--                             LockClientCache/Threads.antt is the threads of a client as a step
--                             relation, LockClientCache/Service.antt all clients and the caching
--                             lock server
--   Fuse.antt                 fuse.cc: what its handlers reply, over the operations of
--                             Yfs/Locked.antt; Fuse/Files.antt and Fuse/Handlers.antt are the
--                             handlers, as steps on the locks and the extents,
--                             Fuse/Listing.antt `dirbuf` and `reply_buf_limited`
--   Rpc.antt                  rpc/marshall.h, rpc/rpc.h and rpc/rpc.cc: Rpc/Marshall.antt and
--                             Rpc/Unmarshall.antt the buffers and headers, Rpc/Values.antt and
--                             Rpc/Containers.antt the operators `<<` and `>>`, Rpc/Calls.antt the
--                             templates of `call` and of the handlers, Rpc/ReplyWindow.antt
--                             `checkduplicate_and_update` and `add_reply`, Rpc/Server.antt `rpcs`,
--                             Rpc/XidWindow.antt `update_xid_rep`, Rpc/Client.antt `rpcc`,
--                             Rpc/Timespec.antt times; Rpc/Remote.antt is one call over the
--                             network with both its messages, Rpc/Net.antt clients, a server and a
--                             network as a step relation
--   Handles.antt              `handle_mgr` and `handle` of handle.h and handle.cc, with the
--                             memory that handles are allocated in
--   Prelude.antt              shared names, Boolean tests, lists and byte strings
-- The other modules below these hold their proofs. Those whose names end in Tests hold runs, for
-- which Yfs/Sample.antt and ExtentServer/Sample.antt hold a server and a disk.
--
-- State and errors: the store is passed on explicitly. `none` stands for a failed VERIFY, for a
-- program that exits, and for undefined behaviour (a null inode that is dereferenced, more than 160
-- blocks). Time, local arrays and the memory of `malloc` are arguments, so that what is proved
-- holds whatever they are, where a time has 32 bits, a local block is as long as a block, and
-- `malloc` gives as much as was asked for; sizes are those of `int`, below 2 ^ 31 - 512.
--
-- Bounds and fuel: `alloc_block` scans 8 bitmap blocks of 4096 bits, which is the whole disk, and
-- `alloc_inode` the numbers 1 to 1023; both loops count down. `filename` prints with fuel for 20
-- digits, enough for 64 bits. The loop of `_readdir` runs on fuel, and one round more than there
-- are entries is enough; it can also run for ever, and then no fuel is enough. That of
-- `add_timespec` has fuel for two rounds. A disk is sound when its blocks are whole, its sizes are
-- those of the header, and the 1034 reserved blocks are in use.
--
-- The operations of yfs_client take the extents and locks as an interface: a server of extents
-- promises (`IsStore`) that a file is read as it was put, where it has room for it. The extent
-- server on its disk keeps these promises for files below inode 1023 with a type of 15 bits, and
-- the runs of yfs_client and fuse.cc are runs on that server. What reaches it over the network is
-- in ExtentClient.antt; Yfs/Server.antt calls its handlers directly.
--
-- Numbers of requests do not wrap. A client with the nonce 0 is served without a check for
-- requests that come again, as its requests are in `dispatch`.
--
-- In a run of lock_client_cache.cc a wait on a condition variable ends only when it was signalled, a
-- thread releases what it holds, each call of a client is served once and answered later, and the
-- server lets a client retry while that client asks. FUSE brings `fuse_dirent_size` and
-- `fuse_add_dirent`, of which the second is taken to write as many bytes as the first says.
--
-- Not modelled: connections, threads and the waiting in rpc/, which are sockets and pthreads;
-- `getattr` of extent_client.cc, and lock_client.cc, which only pass a call on to `rpcc`; the main
-- loops, the demos and the testers; and what the modelled functions print.
mod Prelude
pub mod LockServer
pub mod LockServerCache
pub mod Disk
pub mod BlockManager
pub mod Inode
pub mod InodeManager
pub mod ExtentServer
pub mod ExtentClient
pub mod Rpc
pub mod Handles
pub mod LockClientCache
pub mod Fuse
pub mod Yfs

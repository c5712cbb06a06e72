-- ===== src/ExtentClient.antt =====
-- extent_client.cc: the calls of the extent server by its clients, with the handlers that
-- extent_smain.cc registers. `getattr` is left out, as its reply is no single value of the RPC
-- library.
pub mod RoundTrip
mod Tests
use lab_cse.Prelude.{ℕ, Option, none, some, List, [], ◌∷◌, ◌==◌, if◌then◌else◌}
use lab_cse.Disk.{Block}
use lab_cse.BlockManager.{BlockManager}
use lab_cse.ExtentServer
use lab_cse.Rpc.Marshall.{ReqHeader}
use lab_cse.Rpc.Values.{Ty, u32, u64, str, Value, of_u32, of_u64, of_str}
use lab_cse.Rpc.Calls.{Method}
use lab_cse.Rpc.Remote.{Buffers, remote}

-- The `rpc_numbers` of extent_protocol.h.
abbrev pub proc_put : ℕ
proc_put = 24577

abbrev pub proc_get : ℕ
proc_get = 24578

abbrev pub proc_remove : ℕ
proc_remove = 24580

abbrev pub proc_create : ℕ
proc_create = 24581

-- What the handler meets: local arrays, the memory of `malloc`, the time, and what a number that is
-- not set holds.
pub record Scratch : Type 0 where
  pub block : Block
  pub indnum : Block
  pub res : Block
  pub now : ℕ
  pub unset : ℕ

-- The server, which is `none` after undefined behaviour.
abbrev pub Server : Type 0
Server = Option BlockManager

unfoldable pub put_method : Scratch → Method Server
put_method sc (some im) (of_u64 id ∷ (of_str buf ∷ [])) =
    (ExtentServer.put im id buf sc.block sc.indnum sc.now, 0, of_u32 sc.unset)
put_method sc s args = (s, 0, of_u32 sc.unset)

unfoldable pub get_method : Scratch → Method Server
get_method sc (some im) (of_u64 id ∷ []) =
    let (im1, buf) = ExtentServer.get im id sc.res sc.block sc.indnum sc.now in
    (some im1, 0, of_str buf)
get_method sc s args = (s, 0, of_str [])

unfoldable pub remove_method : Scratch → Method Server
remove_method sc (some im) (of_u64 id ∷ []) =
    (ExtentServer.remove im id sc.indnum, 0, of_u32 sc.unset)
remove_method sc s args = (s, 0, of_u32 sc.unset)

unfoldable pub create_method : Scratch → Method Server
create_method sc (some im) (of_u32 kind ∷ []) =
    let (im1, id) = ExtentServer.create im kind sc.now in (some im1, 0, of_u64 id)
create_method sc s args = (s, 0, of_u64 sc.unset)

-- The calls of `reg` in `main` of the server.
unfoldable pub registered : Scratch → ℕ → Option (List Ty × Method Server)
unfolding put_method get_method remove_method create_method
registered sc proc =
    if proc == proc_get
    then some (u64 ∷ [], get_method sc)
    else if proc == proc_put
    then some (u64 ∷ (str ∷ []), put_method sc)
    else if proc == proc_remove
    then some (u64 ∷ [], remove_method sc)
    else if proc == proc_create
    then some (u32 ∷ [], create_method sc)
    else none

unfoldable pub to_handler :
    Buffers
    → ReqHeader
    → Server
    → List Value
    → Ty
    → Value
    → Option (List Ty × Method Server)
    → Option (Server × ℕ × Value)
to_handler b h s args ty old none = none
to_handler b h s args ty old (some (types, meth)) = remote b h types meth s args ty old

-- `cl->call` of a procedure, where `rpcc` has filled in the rest of the header.
unfoldable pub call :
    Buffers
    → ReqHeader
    → Scratch
    → Server
    → ℕ
    → List Value
    → Ty
    → Value
    → Option (Server × ℕ × Value)
unfolding to_handler registered
call b h sc s proc args ty old =
    to_handler b (record h { proc = proc }) s args ty old (registered sc proc)

-- `old` is what the output argument held before.
unfoldable pub create : Buffers → ReqHeader → Scratch → Server → ℕ → ℕ → Option (Server × ℕ × Value)
unfolding call
create b h sc s kind old = call b h sc s proc_create (of_u32 kind ∷ []) u64 (of_u64 old)

unfoldable pub get :
    Buffers → ReqHeader → Scratch → Server → ℕ → Block → Option (Server × ℕ × Value)
unfolding call
get b h sc s eid old = call b h sc s proc_get (of_u64 eid ∷ []) str (of_str old)

unfoldable pub put :
    Buffers → ReqHeader → Scratch → Server → ℕ → Block → ℕ → Option (Server × ℕ × Value)
unfolding call
put b h sc s eid buf r = call b h sc s proc_put (of_u64 eid ∷ (of_str buf ∷ [])) u32 (of_u32 r)

unfoldable pub remove : Buffers → ReqHeader → Scratch → Server → ℕ → ℕ → Option (Server × ℕ × Value)
unfolding call
remove b h sc s eid r = call b h sc s proc_remove (of_u64 eid ∷ []) u32 (of_u32 r)

-- ===== src/Rpc/ReplyWindow.antt =====
-- The at-most-once logic of `rpcs` in rpc/rpc.cc: `checkduplicate_and_update`, `add_reply` and
-- `free_reply_window`. Each holds the mutex of the window, and is one step.
use lab_cse.Prelude.{
  ℕ, Bool, true, false, Option, none, some, List, [], ◌∷◌, ltb, leb, ◌==◌, if◌then◌else◌,
}
use lab_cse.Rpc.Marshall.{Bytes}

-- `reply_t`: `buf` has `sz` bytes, and is empty where the pointer is null.
pub record Reply : Type 0 where
  pub xid : ℕ
  pub cb_present : Bool
  pub buf : Bytes

-- `rpcstate_t`, with the reply that DONE puts into `b` and `sz`.
pub data RpcState : Type 0 where
  fresh : RpcState  -- NEW
  inprogress : RpcState
  done : Bytes → RpcState
  forgotten : RpcState

-- The constructor of `reply_t`.
abbrev pub new_reply : ℕ → Reply
new_reply xid = record { xid = xid; cb_present = false; buf = [] }

-- The first loop: the first reply with the number.
unfoldable pub find_reply : List Reply → ℕ → Option Reply
find_reply [] xid = none
find_reply (r ∷ rs) xid = if r.xid == xid then some r else find_reply rs xid

abbrev pub front_above : List Reply → ℕ → Bool
front_above [] xid = false
front_above (r ∷ rs) xid = ltb xid r.xid

-- The second loop and the `push_back`.
unfoldable pub insert_reply : List Reply → Reply → List Reply
insert_reply [] reply = reply ∷ []
insert_reply (r ∷ rs) reply =
    if ltb reply.xid r.xid then reply ∷ (r ∷ rs) else r ∷ insert_reply rs reply

-- The third loop and the `erase`.
unfoldable pub erase_old : List Reply → ℕ → List Reply
erase_old [] xid_rep = []
erase_old (r ∷ rs) xid_rep =
    let rest = erase_old rs xid_rep in if leb xid_rep r.xid then r ∷ rs else rest

-- The outcome for the reply that was found.
unfoldable pub on_found : List Reply → ℕ → ℕ → Option Reply → List Reply × RpcState
unfolding insert_reply erase_old
on_found rlist xid xid_rep (some r) = (rlist, if r.cb_present then done r.buf else inprogress)
on_found rlist xid xid_rep none =
    if front_above rlist xid
    then (rlist, forgotten)
    else (erase_old (insert_reply rlist (new_reply xid)) xid_rep, fresh)

-- `checkduplicate_and_update` on the replies to one client.
unfoldable pub check : List Reply → ℕ → ℕ → List Reply × RpcState
unfolding find_reply on_found
check rlist xid xid_rep = on_found rlist xid xid_rep (find_reply rlist xid)

-- The loop of `add_reply`, which goes on behind a match.
unfoldable pub set_reply : List Reply → ℕ → Bytes → List Reply
set_reply [] xid b = []
set_reply (r ∷ rs) xid b =
    (if r.xid == xid then record r { cb_present = true; buf = b } else r) ∷ set_reply rs xid b

-- `reply_window_`: what it gives for a client that is not in the map is created empty.
abbrev pub Windows : Type 0
Windows = ℕ → List Reply

abbrev pub update : Windows → ℕ → List Reply → Windows
update w clt rlist c = if c == clt then rlist else w c

unfoldable pub checkduplicate_and_update : Windows → ℕ → ℕ → ℕ → Windows × RpcState
unfolding check
checkduplicate_and_update w clt_nonce xid xid_rep =
    let (rlist, state) = check (w clt_nonce) xid xid_rep in (update w clt_nonce rlist, state)

unfoldable pub add_reply : Windows → ℕ → ℕ → Bytes → Windows
unfolding set_reply
add_reply w clt_nonce xid b = update w clt_nonce (set_reply (w clt_nonce) xid b)

abbrev pub free_reply_window : Windows → Windows
free_reply_window w = λ _. []

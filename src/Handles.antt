-- ===== src/Handles.antt =====
-- `handle_mgr` and `handle` of handle.h and handle.cc: connections to servers that are shared and
-- counted. The name of a server is a number; `hmap` gives the address of its `hinfo`, and `heap`
-- what stands there. `none` is a use of memory that is not allocated, or a count below 0.
pub mod Counts
pub mod Deletion
pub mod Users
mod Tests
use lab_cse.Prelude.{
  ℕ, zero, suc, ◌+◌, Bool, true, false, ◌&&◌, Option, none, some, ◌==◌, if◌then◌else◌,
}

-- `cl` is the number of an `rpcc`.
pub record Hinfo : Type 0 where
  pub cl : Option ℕ
  pub refcnt : ℕ
  pub del : Bool
  pub m : ℕ

-- `next` is where the next `new` allocates.
pub record HandleMgr : Type 0 where
  pub hmap : ℕ → Option ℕ
  pub heap : ℕ → Option Hinfo
  pub next : ℕ

abbrev pub new_mgr : HandleMgr
new_mgr = record { hmap = λ _. none; heap = λ _. none; next = 0 }

abbrev pub set : {A : Type 0} → (ℕ → Option A) → ℕ → Option A → ℕ → Option A
set f i a j = if j == i then a else f j

abbrev pub store : HandleMgr → ℕ → Hinfo → HandleMgr
store mg i h = record mg { heap = set mg.heap i (some h) }

abbrev pub new_hinfo : ℕ → Hinfo
new_hinfo m = record { cl = none; refcnt = 1; del = false; m = m }

-- The handle that is there already.
unfoldable pub share : HandleMgr → ℕ → Option Hinfo → Option (HandleMgr × Option ℕ)
share mg i none = none
share mg i (some h) =
    if h.del
    then some (mg, none)
    else some (store mg i (record h { refcnt = h.refcnt + 1 }), some i)

unfoldable pub get_at : HandleMgr → ℕ → Option ℕ → Option (HandleMgr × Option ℕ)
unfolding share
get_at mg m none = some (
  record {
    hmap = set mg.hmap m (some mg.next);
    heap = set mg.heap mg.next (some (new_hinfo m));
    next = mg.next + 1;
  },
  some mg.next,
)
get_at mg m (some i) = share mg i (mg.heap i)

-- The constructor of `handle`; its pointer is null where the handle is to be deleted.
unfoldable pub get_handle : HandleMgr → ℕ → Option (HandleMgr × Option ℕ)
unfolding get_at
get_handle mg m = get_at mg m (mg.hmap m)

-- `delete_handle_wo` for the `hinfo` at `i`, with the `cancel` and the deletion of its connection.
unfoldable pub drop_or_mark : HandleMgr → ℕ → ℕ → Option Hinfo → Option HandleMgr
drop_or_mark mg m i none = none
drop_or_mark mg m i (some h) = some (
    if h.refcnt == 0
    then record mg { hmap = set mg.hmap m none; heap = set mg.heap i none }
    else store mg i (record h { del = true }))

unfoldable pub delete_at : HandleMgr → ℕ → Option ℕ → Option HandleMgr
unfolding drop_or_mark
delete_at mg m none = some mg
delete_at mg m (some i) = drop_or_mark mg m i (mg.heap i)

-- `delete_handle_wo` and `delete_handle`
unfoldable pub delete_handle : HandleMgr → ℕ → Option HandleMgr
unfolding delete_at
delete_handle mg m = delete_at mg m (mg.hmap m)

unfoldable pub put_down : HandleMgr → ℕ → Option Hinfo → Option HandleMgr
put_down mg i none = none
put_down mg i (some h) = elim h.refcnt [
  | zero ↦ none
  | suc n ↦
      let h1 : Hinfo = record h { refcnt = n } in
      if (n == 0) && h.del then delete_handle (store mg i h1) h.m else some (store mg i h1)
]

-- The destructor of `handle` where its pointer is not null.
unfoldable pub done_handle : HandleMgr → ℕ → Option HandleMgr
unfolding put_down
done_handle mg i = put_down mg i (mg.heap i)

-- The handle after its first `bind`.
unfoldable pub bind_first : HandleMgr → ℕ → Hinfo → Option ℕ → HandleMgr × Option ℕ
bind_first mg i h none = (store mg i (record h { del = true }), none)
bind_first mg i h (some cl) = (store mg i (record h { cl = some cl }), some cl)

unfoldable pub bind_cl : HandleMgr → ℕ → Hinfo → Option ℕ → Option ℕ → HandleMgr × Option ℕ
unfolding bind_first
bind_cl mg i h bound none = bind_first mg i h bound
bind_cl mg i h bound (some cl) = (mg, some cl)

unfoldable pub bind_at : HandleMgr → ℕ → Option ℕ → Option Hinfo → Option (HandleMgr × Option ℕ)
unfolding bind_cl
bind_at mg i bound none = none
bind_at mg i bound (some h) = some (if h.del then (mg, none) else bind_cl mg i h bound h.cl)

-- `bound` is the new `rpcc`, or `none` where its `bind` has failed. The result is the `rpcc` that
-- `safebind` returns, `none` for a null pointer.
unfoldable pub safebind : HandleMgr → ℕ → Option ℕ → Option (HandleMgr × Option ℕ)
unfolding bind_at
safebind mg i bound = bind_at mg i bound (mg.heap i)

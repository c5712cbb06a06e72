-- ===== src/Rpc/XidWindow.antt =====
-- `update_xid_rep` of rpc/rpc.cc: the requests that have a reply, as a window behind the number up
-- to which all have one. The window is never empty. Numbers are below 2 ^ 32 - 1.
use lab_cse.Prelude.{ℕ, ◌+◌, List, [], ◌∷◌, ◌++◌, ltb, leb, ◌==◌, if◌then◌else◌, get_or}

-- `xid_rep_window_.front()`
abbrev pub front : List ℕ → ℕ
front w = get_or w 0 0

-- The first loop and the `push_back`.
unfoldable pub insert_xid : List ℕ → ℕ → List ℕ
insert_xid [] xid = xid ∷ []
insert_xid (y ∷ ys) xid = if ltb xid y then xid ∷ (y ∷ ys) else y ∷ insert_xid ys xid

-- `while (front + 1 == *it) pop_front()`, on the elements before `it`. When all are gone, the
-- element at `it` is the front, and the loop ends.
unfoldable pub pop_before : List ℕ → ℕ → List ℕ
pop_before [] y = []
pop_before (x ∷ xs) y = let rest = pop_before xs y in if x + 1 == y then rest else x ∷ xs

-- The loop over `it`: the elements before it, and those from it on.
unfoldable pub compress_from : List ℕ → List ℕ → List ℕ
unfolding pop_before
compress_from before [] = before
compress_from before (y ∷ ys) = compress_from (pop_before before y ++ (y ∷ [])) ys

unfoldable pub compress : List ℕ → List ℕ
unfolding compress_from
compress [] = []
compress (x ∷ xs) = compress_from (x ∷ []) xs

unfoldable pub update_xid_rep : List ℕ → ℕ → List ℕ
unfolding insert_xid compress
update_xid_rep w xid = if leb xid (front w) then w else compress (insert_xid w xid)

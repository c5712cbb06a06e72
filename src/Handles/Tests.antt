-- ===== src/Handles/Tests.antt =====
-- A handle that is got, bound and deleted while it is in use.
use lab_cse.Prelude.{ℕ, ◌≡◌, refl, true, false, Option, none, some, [], ◌∷◌, arith}
use lab_cse.Handles.{
  Hinfo, HandleMgr, set, store, new_hinfo, get_handle, get_at, safebind, bind_at, bind_cl,
  bind_first, delete_handle, delete_at, drop_or_mark, done_handle,
}
use lab_cse.Handles.Users.{Runs, start, get, delete, bind, IsAlive, user-IsAlive}

-- The server 5 has one handle, at the address 0.
abbrev got : HandleMgr
got = record {
  hmap = set (λ _. none) 5 (some 0);
  heap = set (λ _. none) 0 (some (new_hinfo 5));
  next = 1;
}

abbrev bound : HandleMgr
bound = store got 0 (record { cl = some 8; refcnt = 1; del = false; m = 5 })

abbrev marked : HandleMgr
marked = store bound 0 (record { cl = some 8; refcnt = 1; del = true; m = 5 })

runs_got : Runs got (0 ∷ [])
unfolding get_handle get_at
runs_got = get {r = some 0} start 5 refl

runs_bound : Runs bound (0 ∷ [])
unfolding safebind bind_at bind_cl bind_first
runs_bound = bind {cl = some 8} runs_got 0 (some 8) (omega arith) refl

runs : Runs marked (0 ∷ [])
unfolding delete_handle delete_at drop_or_mark
runs = delete runs_bound 5 refl

user-IsAlive_example :
    ((h : Hinfo) × IsAlive marked (0 ∷ []) 0 h)
    × ((mg1 : HandleMgr) × (cl : Option ℕ) × (safebind marked 0 none ≡ some (mg1, cl)))
    × ((mg1 : HandleMgr) × (done_handle marked 0 ≡ some mg1))
user-IsAlive_example = user-IsAlive runs 0 none (omega arith)

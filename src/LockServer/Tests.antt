-- ===== src/LockServer/Tests.antt =====
-- The theorems on the plain lock server, at a new server and at one that knows a lock.
use lab_cse.Prelude.{◌≡◌, refl, none, some}
use lab_cse.LockServer.{State, ok, Server, init, set_state, acquire}
use lab_cse.LockServer.Grants.{acquire_twice}

abbrev knows : Server
unfolding set_state
knows = set_state init 5 State.locked

acquire_twice_example :
    (s1 : Server) × (s2 : Server) × (acquire init 5 ≡ some (s1, ok))
    × (acquire s1 5 ≡ some (s2, ok))
    × (acquire s2 5 ≡ none)
acquire_twice_example = acquire_twice init 5 refl

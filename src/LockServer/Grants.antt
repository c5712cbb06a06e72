-- ===== src/LockServer/Grants.antt =====
-- Who is granted a lock by the plain lock server.
use lab_cse.Prelude.{ℕ, ◌≡◌, refl, false, none, some, ◌==◌, ==_refl}
use lab_cse.LockServer.{State, ok, Server, set_state, on_acquire, acquire, on_release, release}

set_state_same : (s : Server) (lid : ℕ) (x : State) → (set_state s lid x).lock_pool lid ≡ some x
unfolding set_state
set_state_same s lid x = rw (==_refl lid) refl

set_state_other :
    (s : Server) (lid i : ℕ) (x : State)
    → (i == lid) ≡ false
    → (set_state s lid x).lock_pool i ≡ s.lock_pool i
unfolding set_state
set_state_other s lid i x ne = rw ne refl

-- The first request for a lock leaves it free: two requests in a row are granted with no release
-- between them, and only the third waits.
pub acquire_twice :
    (s : Server) (lid : ℕ)
    → s.lock_pool lid ≡ none
    → (s1 : Server) × (s2 : Server) × (acquire s lid ≡ some (s1, ok))
      × (acquire s1 lid ≡ some (s2, ok))
      × (acquire s2 lid ≡ none)
unfolding acquire on_acquire
acquire_twice s lid new =
    let s1 = set_state s lid State.free in
    let s2 = set_state s1 lid State.locked in
    (
      s1,
      s2,
      rw new refl,
      rw (set_state_same s lid State.free) refl,
      rw (set_state_same s1 lid State.locked) refl,
    )

-- A lock that the server knows is released with the reply OK; then one request for it is granted
-- and the next waits, and no other lock has changed.
pub acquire-release :
    (s : Server) (lid i : ℕ) (x : State)
    → s.lock_pool lid ≡ some x
    → (i == lid) ≡ false
    → (s1 : Server) × (s2 : Server) × (release s lid ≡ (s1, ok))
      × (acquire s1 lid ≡ some (s2, ok))
      × (acquire s2 lid ≡ none)
      × (s2.lock_pool i ≡ s.lock_pool i)
unfolding acquire on_acquire release on_release
acquire-release s lid i x known ne =
    let s1 = set_state s lid State.free in
    let s2 = set_state s1 lid State.locked in
    (
      s1,
      s2,
      rw known refl,
      rw (set_state_same s lid State.free) refl,
      rw (set_state_same s1 lid State.locked) refl,
      rw (set_state_other s1 lid i State.locked ne) (set_state_other s lid i State.free ne),
    )

-- ===== src/LockClientCache/Service.antt =====
-- The lock service: clients of lock_client_cache.cc and the server of lock_server_cache.cc, which
-- call each other. Each call of a client is served once, and its answer comes later.
use lab_cse.Prelude.{
  ℕ, ◌≡◌, Bool, true, false, Option, none, some, List, [], ◌∷◌, ◌==◌, if◌then◌else◌,
}
use lab_cse.Prelude.Text.{Text, text_eq, is_empty}
use lab_cse.LockServerCache
use lab_cse.LockServerCache.{Status, Server, Acquired, init}
use lab_cse.LockServerCache.History.{Event, asked, released}
use lab_cse.LockClientCache.{releasing}
use lab_cse.LockClientCache.Threads.{
  calling, Cache, new_cache, Act, answered, gave_back, revoke_done, Step,
}
use lab_cse.LockClientCache.Moves.{is_local}

-- The clients by their `id`, with one lock each; answers to `acquire` on their way; clients whose
-- `release` was served and has not returned; what the server has replied, and its state.
pub record Service : Type 0 where
  pub clients : Text → Cache
  pub answers : Text → Option Status
  pub served : Text → Bool
  pub events : List Event
  pub server : Server

abbrev pub at : {A : Type 0} → (Text → A) → Text → A → Text → A
at f c x i = if text_eq i c then x else f i

-- A client that calls the server has an `id`. The server serves other locks in between.
pub data Serves (lid : ℕ) : Service → Type 0 where
  start : Serves lid (record {
    clients = λ _. new_cache;
    answers = λ _. none;
    served = λ _. false;
    events = [];
    server = init;
  })
  local :
      {v : Service} {d : Cache} {a : Act}
      → Serves lid v
      → (c : Text) → is_empty c ≡ false
      → Step (v.clients c) a d
      → is_local a ≡ true
      → Serves lid (record v { clients = at v.clients c d })
  serve_acquire :
      {v : Service}
      → Serves lid v
      → (c : Text) (t : ℕ) (r : Acquired) → is_empty c ≡ false
      → (v.clients c).phase t ≡ calling
      → v.answers c ≡ none
      → LockServerCache.acquire v.server lid c ≡ some r
      → Serves lid (record v {
        answers = at v.answers c (some r.ret);
        events = asked lid c r.ret ∷ v.events;
        server = r.server;
      })
  acquired :
      {v : Service} {d : Cache}
      → Serves lid v
      → (c : Text) (t : ℕ) (st : Status) → v.answers c ≡ some st
      → Step (v.clients c) (answered t st) d
      → Serves lid (record v { clients = at v.clients c d; answers = at v.answers c none })
  serve_release :
      {v : Service} {s : Server} {st : Status}
      → Serves lid v
      → (c : Text) → (v.clients c).lock.state ≡ releasing
      → v.served c ≡ false
      → LockServerCache.release v.server lid c ≡ some (s, st)
      → Serves lid (record v {
        served = at v.served c true;
        events = released lid c st ∷ v.events;
        server = s;
      })
  thread_gave :
      {v : Service} {d : Cache}
      → Serves lid v
      → (c : Text) (t : ℕ) → v.served c ≡ true
      → Step (v.clients c) (gave_back t) d
      → Serves lid (record v { clients = at v.clients c d; served = at v.served c false })
  handler_gave :
      {v : Service} {d : Cache}
      → Serves lid v
      → (c : Text) → v.served c ≡ true
      → Step (v.clients c) revoke_done d
      → Serves lid (record v { clients = at v.clients c d; served = at v.served c false })
  other_acquire :
      {v : Service}
      → Serves lid v
      → (l : ℕ) (c : Text) (r : Acquired) → (l == lid) ≡ false
      → is_empty c ≡ false
      → LockServerCache.acquire v.server l c ≡ some r
      → Serves lid (record v { events = asked l c r.ret ∷ v.events; server = r.server })
  other_release :
      {v : Service} {s : Server} {st : Status}
      → Serves lid v
      → (l : ℕ) (c : Text) → (l == lid) ≡ false
      → LockServerCache.release v.server l c ≡ some (s, st)
      → Serves lid (record v { events = released l c st ∷ v.events; server = s })

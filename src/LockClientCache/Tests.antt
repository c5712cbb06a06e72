-- ===== src/LockClientCache/Tests.antt =====
-- Runs of lock_client_cache.cc with the server of lock_server_cache.cc, and the theorems at these
-- runs.
use lab_cse.Prelude.{ℕ, ◌≡◌, refl, true, false, Option, none, some, [], ◌∷◌}
use lab_cse.Prelude.Text.{Text, text_eq, text_lt}
use lab_cse.LockServerCache
use lab_cse.LockServerCache.{Status, ok, retry, Server, Acquired, init}
use lab_cse.LockServerCache.WaiterSet
use lab_cse.LockServerCache.History.{asked, released, owner}
use lab_cse.LockClientCache.{
  releasing, free, new_lock, CachedLock, acquire, after_call, woken_retry, release, after_release,
  revoke_handler, retry_handler, release_of,
}
use lab_cse.LockClientCache.Threads.{
  idle, giving_back, lost, Cache, new_cache, turned, given, signal, change, ask, answer,
  start_release, give_back, revoke, call_back, wake_retry,
}
use lab_cse.LockClientCache.History.{Runs, never_lost}
use lab_cse.LockClientCache.Service.{
  Service, at, Serves, local, serve_acquire, acquired, serve_release, thread_gave,
}
use lab_cse.LockClientCache.Exclusion.{service_exclusion}

abbrev alice : Text
alice = b'a' ∷ []

abbrev bob : Text
bob = b'b' ∷ []

-- `acquire` and `release` of the server, where they do not abort.
abbrev served_acquire : Server → Text → Acquired
served_acquire s id = elim (LockServerCache.acquire s 5 id) [
  | none ↦ record { server = s; need_revoke = false; ret = retry }
  | some a ↦ a
]

abbrev served_release : Server → Text → Server
served_release s id = elim (LockServerCache.release s 5 id) [ none ↦ s | some (t, _) ↦ t ]

-- Thread 7 asks, and thread 8 asks while 7 holds the lock.
abbrev asking : Cache
asking = turned new_cache 7 (acquire new_cache.lock 7)

abbrev held : Cache
held = turned asking 7 (after_call ok asking.lock)

abbrev queued : Cache
queued = turned held 8 (acquire held.lock 8)

asking-Runs : Runs asking
asking-Runs = Runs.next Runs.start (ask 7 refl)

queued-Runs : Runs queued
unfolding acquire after_call
queued-Runs = Runs.next (Runs.next asking-Runs (answer 7 ok refl)) (ask 8 refl)

never_lost_example : ¬ (queued.phase 8 ≡ lost)
never_lost_example = never_lost queued-Runs 8

abbrev moved : Service → Text → Cache → Service
moved v c d = record v { clients = at v.clients c d }

abbrev asked_server : Service → Text → Service
asked_server v c =
    let r = served_acquire v.server c in
    record v {
      answers = at v.answers c (some r.ret);
      events = asked 5 c r.ret ∷ v.events;
      server = r.server;
    }

abbrev told : Service → Text → Cache → Service
told v c d = record v { clients = at v.clients c d; answers = at v.answers c none }

-- The client `alice` gets the lock of the server.
abbrev fresh : Service
fresh = record {
  clients = λ _. new_cache;
  answers = λ _. none;
  served = λ _. false;
  events = [];
  server = init;
}

abbrev alice_holds : Service
alice_holds = told (asked_server (moved fresh alice asking) alice) alice held

alice_holds-Serves : Serves 5 alice_holds
unfolding acquire release after_call woken_retry revoke_handler retry_handler after_release
    LockServerCache.acquire LockServerCache.release WaiterSet.insert WaiterSet.erase text_eq text_lt
alice_holds-Serves =
    let asks_it = local Serves.start alice refl (ask 7 refl) refl in
    let answered_it =
      serve_acquire asks_it alice 7 (served_acquire init alice) refl refl refl refl in
    acquired answered_it alice 7 ok refl (answer 7 ok refl)

-- The client `bob` asks, and is told to come again.
abbrev waiting : Cache
waiting = turned asking 7 (after_call retry asking.lock)

abbrev bob_waits : Service
bob_waits = told (asked_server (moved alice_holds bob asking) bob) bob waiting

bob_waits-Serves : Serves 5 bob_waits
unfolding acquire release after_call woken_retry revoke_handler retry_handler after_release
    LockServerCache.acquire LockServerCache.release WaiterSet.insert WaiterSet.erase text_eq text_lt
bob_waits-Serves =
    let asks_it = local alice_holds-Serves bob refl (ask 7 refl) refl in
    let answered_it =
      serve_acquire asks_it bob 7 (served_acquire alice_holds.server bob) refl refl refl refl in
    acquired answered_it bob 7 retry refl (answer 7 retry refl)

-- The client `alice` is revoked and gives the lock back.
abbrev marked : Cache
marked = record held { lock = (revoke_handler held.lock).0 }

abbrev leaving : Cache
leaving = record marked {
  lock = record marked.lock { state = releasing };
  phase = change marked.phase 7 giving_back;
}

abbrev given_back : CachedLock → CachedLock × Option ℕ
given_back l = elim (after_release l) [ none ↦ (l, none) | some r ↦ r ]

abbrev left : Cache
left = given leaving 7 (given_back leaving.lock)

abbrev taken_back : Service
taken_back =
    let v = moved (moved bob_waits alice marked) alice leaving in
    record v {
      served = at v.served alice true;
      events = released 5 alice ok ∷ v.events;
      server = served_release v.server alice;
    }

abbrev alice_left : Service
alice_left = record taken_back {
  clients = at taken_back.clients alice left;
  served = at taken_back.served alice false;
}

alice_left-Serves : Serves 5 alice_left
unfolding acquire release after_call woken_retry revoke_handler retry_handler after_release
    LockServerCache.acquire LockServerCache.release WaiterSet.insert WaiterSet.erase text_eq text_lt
alice_left-Serves =
    let r = local bob_waits-Serves alice refl (revoke marked.lock false refl) refl in
    let l = local r alice refl (start_release 7 leaving.lock refl refl) refl in
    let t = serve_release l alice refl refl refl in
    thread_gave t alice 7 refl (give_back 7 (given_back leaving.lock) refl refl)

-- The server calls `bob` back, which asks again and gets the lock.
abbrev called_back : CachedLock → CachedLock × Option ℕ
called_back l = elim (retry_handler l) [ none ↦ (l, none) | some r ↦ r ]

abbrev signalled : Cache
signalled =
    let r = called_back waiting.lock in
    record waiting { lock = r.0; phase = signal waiting.phase r.1 }

abbrev asking_again : Cache
asking_again = turned signalled 7 (woken_retry signalled.lock)

abbrev bob_holds : Service
bob_holds =
    told (asked_server (moved (moved alice_left bob signalled) bob asking_again) bob) bob
      (turned asking_again 7 (after_call ok asking_again.lock))

bob_holds-Serves : Serves 5 bob_holds
unfolding acquire release after_call woken_retry revoke_handler retry_handler after_release
    LockServerCache.acquire LockServerCache.release WaiterSet.insert WaiterSet.erase text_eq text_lt
bob_holds-Serves =
    let c = local alice_left-Serves bob refl (call_back signalled.lock (some 7) refl refl) refl in
    let w = local c bob refl (wake_retry 7 refl) refl in
    let s = serve_acquire w bob 7 (served_acquire alice_left.server bob) refl refl refl refl in
    acquired s bob 7 ok refl (answer 7 ok refl)

abbrev thread : ℕ
thread = 7

service_exclusion_example : (bob ≡ bob) × (thread ≡ thread) × (owner 5 bob_holds.events ≡ bob)
unfolding acquire release after_call woken_retry revoke_handler retry_handler after_release
    LockServerCache.acquire LockServerCache.release WaiterSet.insert WaiterSet.erase text_eq text_lt
service_exclusion_example = service_exclusion bob_holds-Serves bob bob thread thread refl refl

-- A client that came first has the lock no more.
alice_let_go : (bob_holds.clients alice).phase 7 ≡ idle
unfolding acquire release after_call woken_retry revoke_handler retry_handler after_release
    LockServerCache.acquire LockServerCache.release WaiterSet.insert WaiterSet.erase text_eq text_lt
alice_let_go = refl

-- `revoke_handler` gives back a lock that nobody uses, and the pool keeps the entry.
pool_gives_back :
    (revoke_handler (record new_lock { state = free })
      ≡ (record new_lock { state = releasing }, true))
    × (release_of (record { lock_pool = λ _. none }) 5 ≡ none)
unfolding revoke_handler release_of
pool_gives_back = (refl, refl)

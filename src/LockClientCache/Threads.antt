-- ===== src/LockClientCache/Threads.antt =====
-- The threads of one client that use one lock, with the signals that wake them. A wait ends when
-- it was signalled; a thread releases what it holds; and a retry comes while the client asks.
use lab_cse.Prelude.{ℕ, ◌≡◌, Bool, true, false, Option, none, some, ◌==◌, if◌then◌else◌}
use lab_cse.LockServerCache.{Status}
use lab_cse.LockClientCache.{
  acquiring, CachedLock, new_lock, Turn, calls, waits_first, waits, waits_retry, returns, stuck,
  acquire, woken_first, woken, woken_retry, after_call, gives_back, ended, release, after_release,
  revoke_handler, after_revoke, retry_handler,
}

-- Where a thread is; a wait has whether it was signalled.
pub data Phase : Type 0 where
  idle calling holding giving_back lost : Phase
  first_wait wait retry_wait : Bool → Phase

abbrev pub phase_of : Turn → Phase
phase_of calls = calling
phase_of waits_first = first_wait false
phase_of waits = wait false
phase_of waits_retry = retry_wait false
phase_of returns = holding
phase_of stuck = lost

-- A signal where nobody waits is lost.
abbrev pub wake : Phase → Phase
wake (first_wait b) = first_wait true
wake (wait b) = wait true
wake (retry_wait b) = retry_wait true
wake idle = idle
wake calling = calling
wake holding = holding
wake giving_back = giving_back
wake lost = lost

-- One lock of one client; `revoking` is that `revoke_handler` calls the server.
pub record Cache : Type 0 where
  pub lock : CachedLock
  pub phase : ℕ → Phase
  pub revoking : Bool

abbrev pub new_cache : Cache
new_cache = record { lock = new_lock; phase = λ _. idle; revoking = false }

abbrev pub change : (ℕ → Phase) → ℕ → Phase → ℕ → Phase
change ph t p i = if i == t then p else ph i

abbrev pub signal : (ℕ → Phase) → Option ℕ → ℕ → Phase
signal ph none = ph
signal ph (some t) = change ph t (wake (ph t))

-- The thread `t` has done its turn.
abbrev pub turned : Cache → ℕ → CachedLock × Turn → Cache
turned c t (l, k) = record c { lock = l; phase = change c.phase t (phase_of k) }

-- The thread `t` has ended its `release`.
abbrev pub given : Cache → ℕ → CachedLock × Option ℕ → Cache
given c t (l, s) = record c { lock = l; phase = signal (change c.phase t idle) s }

pub data Act : Type 0 where
  asks : ℕ → Act
  wakes : ℕ → Act
  answered : ℕ → Status → Act
  lets_go : ℕ → Act
  gave_back : ℕ → Act
  revoked : Bool → Act
  revoke_done retried : Act

pub data Step (c : Cache) : Act → Cache → Type 0 where
  ask : (t : ℕ) → c.phase t ≡ idle → Step c (asks t) (turned c t (acquire c.lock t))
  wake_first :
      (t : ℕ) → c.phase t ≡ first_wait true → Step c (wakes t) (turned c t (woken_first c.lock))
  wake_behind :
      (t : ℕ) → c.phase t ≡ wait true → Step c (wakes t) (turned c t (woken c.lock.state c.lock))
  wake_retry :
      (t : ℕ) → c.phase t ≡ retry_wait true → Step c (wakes t) (turned c t (woken_retry c.lock))
  answer :
      (t : ℕ) (st : Status)
      → c.phase t ≡ calling
      → Step c (answered t st) (turned c t (after_call st c.lock))
  start_release :
      (t : ℕ) (l : CachedLock)
      → c.phase t ≡ holding
      → release c.lock ≡ gives_back l
      → Step c (lets_go t) (record c { lock = l; phase = change c.phase t giving_back })
  end_release :
      (t : ℕ) (r : CachedLock × Option ℕ)
      → c.phase t ≡ holding
      → release c.lock ≡ ended (some r)
      → Step c (lets_go t) (given c t r)
  give_back :
      (t : ℕ) (r : CachedLock × Option ℕ)
      → c.phase t ≡ giving_back
      → after_release c.lock ≡ some r
      → Step c (gave_back t) (given c t r)
  revoke :
      (l : CachedLock) (b : Bool)
      → revoke_handler c.lock ≡ (l, b)
      → Step c (revoked b) (record c { lock = l; revoking = if b then true else c.revoking })
  end_revoke :
      (l : CachedLock) (s : Option ℕ)
      → c.revoking ≡ true
      → after_revoke c.lock ≡ (l, s)
      → Step c revoke_done (record { lock = l; phase = signal c.phase s; revoking = false })
  call_back :
      (l : CachedLock) (s : Option ℕ)
      → c.lock.state ≡ acquiring
      → retry_handler c.lock ≡ some (l, s)
      → Step c retried (record c { lock = l; phase = signal c.phase s })

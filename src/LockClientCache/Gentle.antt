-- ===== src/LockClientCache/Gentle.antt =====
-- Turns of a thread that start no `release` of a client.
use lab_cse.Prelude.{
  ℕ, ◌≡◌, refl, ap, sym, subst, Bool, true, false, ◌||◌, Option, some, List, [], ◌∷◌,
}
use lab_cse.LockClientCache.{
  State, no_lock, acquiring, free, releasing, locked, CachedLock, on_empty, acquire_with, woken,
  again, woken_retry, retry_with,
}
use lab_cse.LockClientCache.Threads.{Cache}
use lab_cse.LockClientCache.Calls.{may_turn}

-- A `release` that calls the server has `revoke_later` set.
abbrev pub later : State → Bool → Bool → Bool
later releasing r b = r || b
later no_lock r b = true
later acquiring r b = true
later free r b = true
later locked r b = true

abbrev pub IsLater : Cache → Type 0
IsLater c = later c.lock.state c.revoking c.lock.revoke_later ≡ true

-- A turn that starts no release.
abbrev pub is_gentle : State → State → Bool
is_gentle no_lock no_lock = true
is_gentle no_lock acquiring = true
is_gentle no_lock free = false
is_gentle no_lock releasing = false
is_gentle no_lock locked = false
is_gentle acquiring no_lock = false
is_gentle acquiring acquiring = true
is_gentle acquiring free = false
is_gentle acquiring releasing = false
is_gentle acquiring locked = false
is_gentle free no_lock = false
is_gentle free acquiring = false
is_gentle free free = true
is_gentle free releasing = false
is_gentle free locked = true
is_gentle releasing no_lock = false
is_gentle releasing acquiring = false
is_gentle releasing free = false
is_gentle releasing releasing = true
is_gentle releasing locked = false
is_gentle locked no_lock = false
is_gentle locked acquiring = false
is_gentle locked free = false
is_gentle locked releasing = false
is_gentle locked locked = true

pub is_gentle-may_turn : (s s1 : State) → is_gentle s s1 ≡ true → may_turn s s1 ≡ true
is_gentle-may_turn no_lock no_lock h = refl
is_gentle-may_turn no_lock acquiring h = refl
is_gentle-may_turn no_lock free h = h
is_gentle-may_turn no_lock releasing h = h
is_gentle-may_turn no_lock locked h = h
is_gentle-may_turn acquiring no_lock h = h
is_gentle-may_turn acquiring acquiring h = refl
is_gentle-may_turn acquiring free h = h
is_gentle-may_turn acquiring releasing h = h
is_gentle-may_turn acquiring locked h = h
is_gentle-may_turn free no_lock h = h
is_gentle-may_turn free acquiring h = h
is_gentle-may_turn free free h = refl
is_gentle-may_turn free releasing h = refl
is_gentle-may_turn free locked h = refl
is_gentle-may_turn releasing no_lock h = h
is_gentle-may_turn releasing acquiring h = h
is_gentle-may_turn releasing free h = h
is_gentle-may_turn releasing releasing h = refl
is_gentle-may_turn releasing locked h = h
is_gentle-may_turn locked no_lock h = h
is_gentle-may_turn locked acquiring h = h
is_gentle-may_turn locked free h = refl
is_gentle-may_turn locked releasing h = refl
is_gentle-may_turn locked locked h = refl

pub is_gentle-later :
    (s s1 : State) (r b : Bool) → is_gentle s s1 ≡ true → later s r b ≡ true → later s1 r b ≡ true
is_gentle-later no_lock no_lock r b h k = refl
is_gentle-later no_lock acquiring r b h k = refl
is_gentle-later no_lock free r b h k = refl
is_gentle-later no_lock releasing r b h k = cc h
is_gentle-later no_lock locked r b h k = refl
is_gentle-later acquiring no_lock r b h k = refl
is_gentle-later acquiring acquiring r b h k = refl
is_gentle-later acquiring free r b h k = refl
is_gentle-later acquiring releasing r b h k = cc h
is_gentle-later acquiring locked r b h k = refl
is_gentle-later free no_lock r b h k = refl
is_gentle-later free acquiring r b h k = refl
is_gentle-later free free r b h k = refl
is_gentle-later free releasing r b h k = cc h
is_gentle-later free locked r b h k = refl
is_gentle-later releasing no_lock r b h k = refl
is_gentle-later releasing acquiring r b h k = refl
is_gentle-later releasing free r b h k = refl
is_gentle-later releasing releasing r b h k = k
is_gentle-later releasing locked r b h k = refl
is_gentle-later locked no_lock r b h k = refl
is_gentle-later locked acquiring r b h k = refl
is_gentle-later locked free r b h k = refl
is_gentle-later locked releasing r b h k = cc h
is_gentle-later locked locked r b h k = refl

gentle_same : (s : State) → is_gentle s s ≡ true
gentle_same no_lock = refl
gentle_same acquiring = refl
gentle_same free = refl
gentle_same releasing = refl
gentle_same locked = refl

abbrev pub Gentle : CachedLock → CachedLock → Type 0
Gentle l k = (is_gentle l.state k.state ≡ true) × (k.revoke_later ≡ l.revoke_later)

on_empty-Gentle :
    (s : State) (l : CachedLock)
    → l.state ≡ s
    → (is_gentle s (on_empty s l).0.state ≡ true) × ((on_empty s l).0.revoke_later ≡ l.revoke_later)
unfolding on_empty
on_empty-Gentle no_lock l e = (refl, refl)
on_empty-Gentle free l e = (refl, refl)
on_empty-Gentle acquiring l e = (ap (is_gentle acquiring) e, refl)
on_empty-Gentle releasing l e = (ap (is_gentle releasing) e, refl)
on_empty-Gentle locked l e = (ap (is_gentle locked) e, refl)

pub acquire_with-Gentle : (qs : List ℕ) (l : CachedLock) (t : ℕ) → Gentle l (acquire_with qs l t).0
unfolding acquire_with
acquire_with-Gentle [] l t = on_empty-Gentle l.state (record l { queue = t ∷ [] }) refl
acquire_with-Gentle (q ∷ qs) l t = (gentle_same l.state, refl)

pub woken-Gentle :
    (s : State) (l : CachedLock)
    → l.state ≡ s
    → (is_gentle s (woken s l).0.state ≡ true) × ((woken s l).0.revoke_later ≡ l.revoke_later)
unfolding woken
woken-Gentle no_lock l e = (refl, refl)
woken-Gentle free l e = (refl, refl)
woken-Gentle acquiring l e = (ap (is_gentle acquiring) e, refl)
woken-Gentle releasing l e = (ap (is_gentle releasing) e, refl)
woken-Gentle locked l e = (ap (is_gentle locked) e, refl)

pub again_lock : (s : State) (l : CachedLock) → (again s l).0 ≡ l
unfolding again
again_lock no_lock l = refl
again_lock acquiring l = refl
again_lock free l = refl
again_lock releasing l = refl
again_lock locked l = refl

pub retry_with-Gentle :
    (qs : List ℕ) (l : CachedLock) (r : CachedLock × Option ℕ)
    → retry_with qs l ≡ some r
    → Gentle l r.0
unfolding retry_with
retry_with-Gentle [] l r e = cc e
retry_with-Gentle (q ∷ qs) l r e =
    let same : (record l { retry_earlier = true }, some q) ≡ r = cc e in
    subst (λ x. Gentle l x.0) same (gentle_same l.state, refl)

pub woken_retry-Gentle : (l : CachedLock) → Gentle l (woken_retry l).0
unfolding woken_retry
woken_retry-Gentle l =
    let k : CachedLock = record l { retry_earlier = false } in
    subst (λ x. Gentle l x) (sym (again_lock l.state k)) (gentle_same l.state, refl)

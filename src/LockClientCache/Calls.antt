-- ===== src/LockClientCache/Calls.antt =====
-- What the state of a lock at a client says of its calls to the server.
use lab_cse.Prelude.{◌≡◌, refl, Bool, true, false, not, Option, none, some}
use lab_cse.LockServerCache.{Status}
use lab_cse.LockServerCache.History.{is_ok}
use lab_cse.LockClientCache.{State, no_lock, acquiring, free, releasing, locked}

-- An answer to `acquire` is on its way back (`p`), or the server has served `release` (`g`), only
-- while the client calls it.
abbrev pub sound : State → Option Status → Bool → Bool
sound acquiring p g = not g
sound releasing none g = true
sound releasing (some st) g = false
sound no_lock none g = not g
sound no_lock (some st) g = false
sound free none g = not g
sound free (some st) g = false
sound locked none g = not g
sound locked (some st) g = false

abbrev pub brings : Option Status → Bool
brings none = false
brings (some st) = is_ok st

-- The lock is with the client, or on its way to or from it.
abbrev pub has_lock : State → Option Status → Bool → Bool
has_lock no_lock p g = false
has_lock acquiring p g = brings p
has_lock free p g = true
has_lock releasing p g = not g
has_lock locked p g = true

-- What a step of a client that is no end of a call does to the state.
abbrev pub may_turn : State → State → Bool
may_turn no_lock no_lock = true
may_turn no_lock acquiring = true
may_turn no_lock free = false
may_turn no_lock releasing = false
may_turn no_lock locked = false
may_turn acquiring no_lock = false
may_turn acquiring acquiring = true
may_turn acquiring free = false
may_turn acquiring releasing = false
may_turn acquiring locked = false
may_turn free no_lock = false
may_turn free acquiring = false
may_turn free free = true
may_turn free releasing = true
may_turn free locked = true
may_turn releasing no_lock = false
may_turn releasing acquiring = false
may_turn releasing free = false
may_turn releasing releasing = true
may_turn releasing locked = false
may_turn locked no_lock = false
may_turn locked acquiring = false
may_turn locked free = true
may_turn locked releasing = true
may_turn locked locked = true

pub turn-sound :
    (s s1 : State) (p : Option Status) (g : Bool)
    → may_turn s s1 ≡ true
    → sound s p g ≡ true
    → sound s1 p g ≡ true
turn-sound no_lock no_lock p g m h = h
turn-sound no_lock acquiring none g m h = h
turn-sound no_lock acquiring (some st) g m h = cc h
turn-sound no_lock free p g m h = h
turn-sound no_lock releasing p g m h = cc m
turn-sound no_lock locked p g m h = h
turn-sound acquiring no_lock p g m h = cc m
turn-sound acquiring acquiring p g m h = h
turn-sound acquiring free p g m h = cc m
turn-sound acquiring releasing p g m h = cc m
turn-sound acquiring locked p g m h = cc m
turn-sound free no_lock p g m h = h
turn-sound free acquiring p g m h = cc m
turn-sound free free p g m h = h
turn-sound free releasing none g m h = refl
turn-sound free releasing (some st) g m h = cc h
turn-sound free locked none g m h = h
turn-sound free locked (some st) g m h = cc h
turn-sound releasing no_lock p g m h = cc m
turn-sound releasing acquiring p g m h = cc m
turn-sound releasing free p g m h = cc m
turn-sound releasing releasing p g m h = h
turn-sound releasing locked p g m h = cc m
turn-sound locked no_lock p g m h = h
turn-sound locked acquiring p g m h = cc m
turn-sound locked free none g m h = h
turn-sound locked free (some st) g m h = cc h
turn-sound locked releasing none g m h = refl
turn-sound locked releasing (some st) g m h = cc h
turn-sound locked locked p g m h = h

pub turn-has_lock :
    (s s1 : State) (p : Option Status) (g : Bool)
    → may_turn s s1 ≡ true
    → sound s p g ≡ true
    → has_lock s1 p g ≡ true
    → has_lock s p g ≡ true
turn-has_lock no_lock no_lock p g m h k = k
turn-has_lock no_lock acquiring none g m h k = cc k
turn-has_lock no_lock acquiring (some st) g m h k = cc h
turn-has_lock no_lock free p g m h k = cc m
turn-has_lock no_lock releasing p g m h k = cc m
turn-has_lock no_lock locked p g m h k = cc m
turn-has_lock acquiring no_lock p g m h k = cc m
turn-has_lock acquiring acquiring p g m h k = k
turn-has_lock acquiring free p g m h k = cc m
turn-has_lock acquiring releasing p g m h k = cc m
turn-has_lock acquiring locked p g m h k = cc m
turn-has_lock free no_lock p g m h k = refl
turn-has_lock free acquiring p g m h k = refl
turn-has_lock free free p g m h k = k
turn-has_lock free releasing p g m h k = refl
turn-has_lock free locked p g m h k = refl
turn-has_lock releasing no_lock p g m h k = cc m
turn-has_lock releasing acquiring p g m h k = cc m
turn-has_lock releasing free p g m h k = cc m
turn-has_lock releasing releasing p g m h k = k
turn-has_lock releasing locked p g m h k = cc m
turn-has_lock locked no_lock p g m h k = refl
turn-has_lock locked acquiring p g m h k = refl
turn-has_lock locked free p g m h k = refl
turn-has_lock locked releasing p g m h k = refl
turn-has_lock locked locked p g m h k = k

pub may_stay : (s : State) → may_turn s s ≡ true
may_stay no_lock = refl
may_stay acquiring = refl
may_stay free = refl
may_stay releasing = refl
may_stay locked = refl

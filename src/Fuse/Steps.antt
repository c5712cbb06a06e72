-- ===== src/Fuse/Steps.antt =====
-- The calls of yfs_client by a handler of fuse.cc: one after the other, on the state of the locks and
-- of the extents.
use lab_cse.Prelude.{Option, none, some}

-- The state of `lock_client_cache` and that of the server of extents.
abbrev pub World : Type 0 → Type 0 → Type 0
World L S = L × S

abbrev pub Run : Type 0 → Type 0 → Type 0
Run W A = W → Option (A × W)

abbrev pub pure : {W A : Type 0} → A → Run W A
pure a w = some (a, w)

abbrev pub go_on : {W A B : Type 0} → (A → Run W B) → Option (A × W) → Option (B × W)
go_on f none = none
go_on f (some (a, w)) = f a w

infixl 5 ◌>>=◌ ◌>>◌
abbrev pub ◌>>=◌ : {W A B : Type 0} → Run W A → (A → Run W B) → Run W B
◌>>=◌ m f w = go_on f (m w)

abbrev pub ◌>>◌ : {W B : Type 0} → Run W (Unit {0}) → Run W B → Run W B
m >> k = m >>= λ _. k

-- A call of yfs_client with one result, and with two.
abbrev pub called : {L S A : Type 0} → Option (L × S × A) → Option (A × World L S)
called none = none
called (some (l, s, a)) = some (a, (l, s))

abbrev pub called_two : {L S A B : Type 0} → Option (L × S × A × B) → Option ((A × B) × World L S)
called_two none = none
called_two (some (l, s, a, b)) = some ((a, b), (l, s))

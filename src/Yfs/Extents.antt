-- ===== src/Yfs/Extents.antt =====
-- What yfs_client.cc takes from its two servers, through extent_client and lock_client_cache.
use lab_cse.Prelude.{ℕ, ◌^◌, ◌<◌, ◌≡◌, ◌≢◌, [], length}
use lab_cse.Prelude.Text.{Text}
use lab_cse.InodeManager.Table.{Attr}

-- `extent_client` on the state `S` of its server. Each operation gives a status and its output
-- arguments. Where the status is not OK an output is what the caller held before, which for a
-- string is empty.
pub record Extents (S : Type 0) : Type 0 where
  pub create : S → ℕ → S × ℕ × ℕ
  pub get : S → ℕ → S × ℕ × Text
  pub getattr : S → ℕ → S × ℕ × Attr
  pub put : S → ℕ → Text → S × ℕ
  pub remove : S → ℕ → S × ℕ

-- `lock_client_cache`: how it is left when `acquire` and `release` return.
pub record Locks (L : Type 0) : Type 0 where
  pub acquire : L → ℕ → L
  pub release : L → ℕ → L

-- The `types` of extent_protocol.h.
abbrev pub t_dir : ℕ
t_dir = 1

abbrev pub t_file : ℕ
t_file = 2

abbrev pub t_symlink : ℕ
t_symlink = 3

-- A file, a directory or a link, as a client sees it.
pub record File : Type 0 where
  pub kind : ℕ
  pub content : Text

-- What yfs_client relies on where it has a file: `Has s i f` says that the server has the file `f` at
-- `i` in the state `s`; `room` that a put of a content succeeds, `can_create` that a create does.
-- A put may change other files, but not those that are empty.
pub record IsStore {S : Type 0} (e : Extents S) (Has : S → ℕ → File → Type 0)
    (room : S → ℕ → Text → Type 0) (can_create : S → ℕ → Type 0) : Type 0 where
  pub get_file :
      (s : S) (i : ℕ) (f : File) → Has s i f → ((e.get s i).1 ≡ 0) × ((e.get s i).2 ≡ f.content)
  pub get_kept :
      (s : S) (i : ℕ) (f : File)
      → Has s i f
      → (j : ℕ) (g : File) → Has s j g
      → Has (e.get s i).0 j g
  pub getattr_file :
      (s : S) (i : ℕ) (f : File)
      → Has s i f
      → ((e.getattr s i).1 ≡ 0)
        × ((e.getattr s i).2.kind ≡ f.kind)
        × ((e.getattr s i).2.size ≡ length f.content)
  pub getattr_kept :
      (s : S) (i : ℕ) (f : File)
      → Has s i f
      → (j : ℕ) (g : File) → Has s j g
      → Has (e.getattr s i).0 j g
  pub put_file :
      (s : S) (i : ℕ) (f : File) (t : Text)
      → Has s i f
      → room s i t
      → ((e.put s i t).1 ≡ 0) × Has (e.put s i t).0 i (record { kind = f.kind; content = t })
  pub put_kept :
      (s : S) (i : ℕ) (f : File) (t : Text)
      → Has s i f
      → room s i t
      → (j kind : ℕ) → j ≢ i
      → Has s j (record { kind = kind; content = [] })
      → Has (e.put s i t).0 j (record { kind = kind; content = [] })
  pub create_file :
      (s : S) (kind : ℕ)
      → can_create s kind
      → ((e.create s kind).2 < 2 ^ 64)
        × Has (e.create s kind).0 (e.create s kind).2 (record { kind = kind; content = [] })
  pub create_kept :
      (s : S) (kind : ℕ)
      → can_create s kind
      → (j : ℕ) (g : File) → Has s j g
      → Has (e.create s kind).0 j g × ((e.create s kind).2 ≢ j)

-- ===== src/Fuse/Rules.antt =====
-- What the calls of fuse.cc give on a file that the server of extents has.
use lab_cse.Prelude.{
  ℕ, ◌≡◌, refl, ap, sym, ◌∙◌, Bool, true, false, some, length, ◌==◌, if◌then◌else◌,
}
use lab_cse.Prelude.Text.{Text}
use lab_cse.Yfs.Extents.{Extents, Locks, File, IsStore, t_file, t_dir}
use lab_cse.Yfs.Operations
use lab_cse.Yfs.Operations.{ok, Fileinfo, Dirinfo}
use lab_cse.Yfs.Locked
use lab_cse.Fuse.{Mode, s_ifreg, s_ifdir, s_iflnk, Stat, with_file, with_dir}
use lab_cse.Fuse.Steps.{World, Run, pure, go_on, ◌>>=◌}
use lab_cse.Fuse.Files.{isfile, isdir, getfile, getdir, getattr_dir, getattr_file, getattr}

-- The server still has what it had.
abbrev pub Keeps : {S : Type 0} → (S → ℕ → File → Type 0) → S → S → Type 0
Keeps Has s t = (j : ℕ) (g : File) → Has s j g → Has t j g

-- `m` ends with a result in `P`, and the server keeps what it has.
abbrev pub Gives :
    {S L A : Type 0}
    → (S → ℕ → File → Type 0)
    → Run (World L S) A
    → World L S
    → (A → Type 0)
    → Type 0
Gives {S} {L} {A} Has m w P =
    (a : A) × (v : World L S) × (m w ≡ some (a, v)) × P a × Keeps Has w.1 v.1

pub gives_then :
    {S L A B : Type 0} (Has : S → ℕ → File → Type 0) (m : Run (World L S) A)
    (f : A → Run (World L S) B) (w : World L S) (P : A → Type 0) (Q : B → Type 0)
    → Gives Has m w P
    → ((a : A) (v : World L S) → P a → Keeps Has w.1 v.1 → Gives Has (f a) v Q)
    → Gives Has (m >>= f) w Q
gives_then Has m f w P Q (a, v, e, p, l) k =
    let (b, u, e2, q, l2) = k a v p l in (b, u, ap (go_on f) e ∙ e2, q, λ j g h. l2 j g (l j g h))

abbrev pub mode_of : ℕ → Mode
mode_of kind =
    if kind == t_file then s_ifreg 438 else if kind == t_dir then s_ifdir 511 else s_iflnk 511

abbrev pub links_of : ℕ → ℕ
links_of kind = if kind == t_file then 1 else if kind == t_dir then 2 else 1

abbrev pub size_of : File → ℕ
size_of f =
    if f.kind == t_file then length f.content else if f.kind == t_dir then 0 else length f.content

-- The attributes are those of this file; the times are the server's.
pub record IsStatOf (i : ℕ) (f : File) (st : Stat) : Type 0 where
  pub ino : st.st_ino ≡ i
  pub mode : st.st_mode ≡ mode_of f.kind
  pub links : st.st_nlink ≡ links_of f.kind
  pub size : st.st_size ≡ size_of f

-- The state after a call that locks `i` and leaves the extents as `s`.
abbrev pub left : {S L : Type 0} → Locks L → World L S → ℕ → S → World L S
left lc w i s = (lc.release (lc.acquire w.0 i) i, s)

file_read :
    (mode : Mode) (i : ℕ) (r : ℕ × Fileinfo)
    → r.0 ≡ ok
    → with_file mode i r ≡ (
      ok,
      record {
        st_ino = i;
        st_mode = mode;
        st_nlink = 1;
        st_atime = r.1.atime;
        st_mtime = r.1.mtime;
        st_ctime = r.1.ctime;
        st_size = r.1.size;
      },
    )
file_read mode i (r, info) e = rw e refl

dir_read :
    (i : ℕ) (r : ℕ × Dirinfo)
    → r.0 ≡ ok
    → with_dir i r ≡ (
      ok,
      record {
        st_ino = i;
        st_mode = s_ifdir 511;
        st_nlink = 2;
        st_atime = r.1.atime;
        st_mtime = r.1.mtime;
        st_ctime = r.1.ctime;
        st_size = 0;
      },
    )
dir_read i (r, info) e = rw e refl

abbrev pub HasAttributes : ℕ → File → ℕ × Stat → Type 0
HasAttributes i f r = (r.0 ≡ ok) × IsStatOf i f r.1

module _ {S L : Type 0} (e : Extents S) (lc : Locks L) (Has : S → ℕ → File → Type 0)
    (room : S → ℕ → Text → Type 0) (can_create : S → ℕ → Type 0)
    (store : IsStore e Has room can_create) where
  pub isfile-Gives :
      (i : ℕ) (f : File) (w : World L S)
      → Has w.1 i f
      → Gives Has (isfile e lc i) w (λ b. b ≡ (f.kind == t_file))
  unfolding isfile Locked.isfile Locked.finish Operations.isfile Operations.has_kind
  isfile-Gives i f w h =
      let (r, k, _) = store.getattr_file w.1 i f h in
      let b = (Operations.isfile e w.1 i).1 in
      let is : b ≡ (f.kind == t_file) = rw (r, k) refl in
      (b, left lc w i (e.getattr w.1 i).0, refl, is, store.getattr_kept w.1 i f h)

  pub isdir-Gives :
      (i : ℕ) (f : File) (w : World L S)
      → Has w.1 i f
      → Gives Has (isdir e lc i) w (λ b. b ≡ (f.kind == t_dir))
  unfolding isdir Locked.isdir Locked.finish Operations.isdir Operations.has_kind
  isdir-Gives i f w h =
      let (r, k, _) = store.getattr_file w.1 i f h in
      let b = (Operations.isdir e w.1 i).1 in
      let is : b ≡ (f.kind == t_dir) = rw (r, k) refl in
      (b, left lc w i (e.getattr w.1 i).0, refl, is, store.getattr_kept w.1 i f h)

  getfile-Gives :
      (i : ℕ) (f : File) (w : World L S)
      → Has w.1 i f
      → Gives Has (getfile e lc i) w (λ r. (r.0 ≡ ok) × (r.1.size ≡ length f.content))
  unfolding getfile Locked.getfile Locked.finish_two Operations.getfile
  getfile-Gives i f w h =
      let (r, _, n) = store.getattr_file w.1 i f h in
      let a = (e.getattr w.1 i).2 in
      let info : Fileinfo = record {
        size = a.size;
        atime = a.atime;
        mtime = a.mtime;
        ctime = a.ctime;
      } in
      (
        (ok, info),
        left lc w i (e.getattr w.1 i).0,
        rw r refl,
        (refl, n),
        store.getattr_kept w.1 i f h,
      )

  getdir-Gives :
      (i : ℕ) (f : File) (w : World L S) → Has w.1 i f → Gives Has (getdir e lc i) w (λ r. r.0 ≡ ok)
  unfolding getdir Locked.getdir Locked.finish_two Operations.getdir
  getdir-Gives i f w h =
      let (r, _, n) = store.getattr_file w.1 i f h in
      let a = (e.getattr w.1 i).2 in
      let info : Dirinfo = record { atime = a.atime; mtime = a.mtime; ctime = a.ctime } in
      ((ok, info), left lc w i (e.getattr w.1 i).0, rw r refl, refl, store.getattr_kept w.1 i f h)

  -- `getfile`, and attributes from what it gives.
  from_file :
      (i : ℕ) (f : File) (w : World L S) (mode : Mode)
      → Has w.1 i f
      → (mode_of f.kind ≡ mode) × (links_of f.kind ≡ 1) × (size_of f ≡ length f.content)
      → Gives Has (getfile e lc i >>= λ r. pure (with_file mode i r)) w (HasAttributes i f)
  from_file i f w mode h (m, n, z) =
      gives_then Has (getfile e lc i) (λ r. pure (with_file mode i r)) w
        (λ r. (r.0 ≡ ok) × (r.1.size ≡ length f.content)) (HasAttributes i f)
        (getfile-Gives i f w h)
        (λ r v (k, size) _.
          let q = file_read mode i r k in
          (
            with_file mode i r,
            v,
            refl,
            (
              ap (λ x. x.0) q,
              record {
                ino = ap (λ x. x.1.st_ino) q;
                mode = ap (λ x. x.1.st_mode) q ∙ sym m;
                links = ap (λ x. x.1.st_nlink) q ∙ sym n;
                size = ap (λ x. x.1.st_size) q ∙ size ∙ sym z;
              },
            ),
            λ j g x. x,
          ))

  getattr_dir-Gives :
      (i : ℕ) (f : File) (w : World L S) (b : Bool)
      → Has w.1 i f
      → (f.kind == t_file) ≡ false
      → b ≡ (f.kind == t_dir)
      → Gives Has (getattr_dir e lc i b) w (HasAttributes i f)
  unfolding getattr_dir
  getattr_dir-Gives i f w true h not_file is =
      gives_then Has (getdir e lc i) (λ r. pure (with_dir i r)) w (λ r. r.0 ≡ ok)
        (HasAttributes i f) (getdir-Gives i f w h)
        (λ r v k _.
          let q = dir_read i r k in
          (
            with_dir i r,
            v,
            refl,
            (
              ap (λ x. x.0) q,
              record {
                ino = ap (λ x. x.1.st_ino) q;
                mode = ap (λ x. x.1.st_mode) q ∙ sym (rw (not_file, sym is) refl);
                links = ap (λ x. x.1.st_nlink) q ∙ sym (rw (not_file, sym is) refl);
                size = ap (λ x. x.1.st_size) q ∙ sym (rw (not_file, sym is) refl);
              },
            ),
            λ j g x. x,
          ))
  getattr_dir-Gives i f w false h not_file is =
      from_file i f w (s_iflnk 511) h
        (rw (not_file, sym is) refl, rw (not_file, sym is) refl, rw (not_file, sym is) refl)

  getattr_file-Gives :
      (i : ℕ) (f : File) (w : World L S) (b : Bool)
      → Has w.1 i f
      → b ≡ (f.kind == t_file)
      → Gives Has (getattr_file e lc i b) w (HasAttributes i f)
  unfolding getattr_file
  getattr_file-Gives i f w true h is =
      from_file i f w (s_ifreg 438) h (rw (sym is) refl, rw (sym is) refl, rw (sym is) refl)
  getattr_file-Gives i f w false h is =
      gives_then Has (isdir e lc i) (getattr_dir e lc i) w (λ b. b ≡ (f.kind == t_dir))
        (HasAttributes i f) (isdir-Gives i f w h)
        (λ b v k same. let h1 = same i f h in (getattr_dir-Gives i f v b h1 (sym is) k))

  -- `getattr` of a file, a directory or a link that the server has.
  pub getattr-Gives :
      (i : ℕ) (f : File) (w : World L S)
      → Has w.1 i f
      → Gives Has (getattr e lc i) w (HasAttributes i f)
  unfolding getattr
  getattr-Gives i f w h =
      gives_then Has (isfile e lc i) (λ _. isfile e lc i >>= getattr_file e lc i) w
        (λ b. b ≡ (f.kind == t_file)) (HasAttributes i f) (isfile-Gives i f w h)
        (λ _ v _ same.
          let h1 = same i f h in
          (gives_then Has (isfile e lc i) (getattr_file e lc i) v (λ b. b ≡ (f.kind == t_file))
            (HasAttributes i f) (isfile-Gives i f v h1)
            (λ b u k same2. (getattr_file-Gives i f u b (same2 i f h1) k))))

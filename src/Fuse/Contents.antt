-- ===== src/Fuse/Contents.antt =====
-- Requests of FUSE that write, read and resize the content of a file.
use lab_cse.Prelude.{ℕ, ◌<◌, ◌||◌, ◌≡◌, refl, ap, ◌∙◌, true, some, length}
use lab_cse.Prelude.Text.{Text}
use lab_cse.Yfs.Bytes.{resize, write_at, read_at-write_at}
use lab_cse.Yfs.Extents.{Extents, Locks, File, IsStore}
use lab_cse.Yfs.Operations
use lab_cse.Yfs.Operations.{ok}
use lab_cse.Yfs.Locked
use lab_cse.Fuse.{Stat, Reply, reply_attr, reply_buf, reply_write, ToSet}
use lab_cse.Fuse.Steps.{World, Run, pure, go_on, ◌>>=◌}
use lab_cse.Fuse.Files.{
  getattr, setattr, setattr_if, fuseserver_setattr, read, fuseserver_read, write, fuseserver_write,
}
use lab_cse.Fuse.Rules.{Gives, IsStatOf, left, getattr-Gives}

abbrev pub resized : ℕ → File → File
resized size f = record { kind = f.kind; content = resize size f.content }

abbrev pub written : ℕ → Text → File → File
written off buf f = record { kind = f.kind; content = write_at off buf f.content }

module _ {S L : Type 0} (e : Extents S) (lc : Locks L) (Has : S → ℕ → File → Type 0)
    (room : S → ℕ → Text → Type 0) (can_create : S → ℕ → Type 0)
    (store : IsStore e Has room can_create) where
  -- A put of what the call before has got.
  put_back :
      (i : ℕ) (f : File) (t : Text) (s : S)
      → Has s i f
      → room (e.get s i).0 i t
      → ((e.put (e.get s i).0 i t).1 ≡ ok)
        × Has (e.put (e.get s i).0 i t).0 i (record { kind = f.kind; content = t })
  put_back i f t s h more = store.put_file (e.get s i).0 i f t (store.get_kept s i f h i f h) more

  -- Where the server of extents keeps its promises and has room for the content at the size of the
  -- request, and the size is to be set: `fuseserver_setattr` cuts or extends the file to that size,
  -- and replies with the attributes of the new file.
  pub fuseserver_setattr-resized :
      (i size : ℕ) (t : ToSet) (f : File) (w : World L S)
      → t.set_size ≡ true
      → Has w.1 i f
      → room (e.get w.1 i).0 i (resize size f.content)
      → (st : Stat) × (v : World L S) × (fuseserver_setattr e lc i size t w
          ≡ some (reply_attr st 0, v))
        × IsStatOf i (resized size f) st
        × Has v.1 i (resized size f)
  unfolding fuseserver_setattr setattr_if setattr Locked.setattr Locked.finish Operations.setattr
  fuseserver_setattr-resized i size t f w is_set h more =
      let s = w.1 in
      let (r, c) = store.get_file s i f h in
      let (done, there) = put_back i f (resize size f.content) s h more in
      let v : World L S = left lc w i (e.put (e.get s i).0 i (resize size f.content)).0 in
      let ran : setattr e lc i size w ≡ some (ok, v) = rw (r, c, done) refl in
      let (st, u, e2, (k, is), same) =
        getattr-Gives e lc Has room can_create store i (resized size f) v there in
      let reply : ℕ × Stat → Run (World L S) Reply = λ x. pure (reply_attr x.1 0) in
      (
        st.1,
        u,
        ap (λ b. setattr_if e lc i size (b || t.set_atime || t.set_mtime) w) is_set
            ∙ ap (go_on (λ _. getattr e lc i >>= reply)) ran
            ∙ ap (go_on reply) e2,
        is,
        same i (resized size f) there,
      )

  -- Let the server of extents keep its promises and have room for the content with the bytes of the
  -- request. Then `fuseserver_write` of at least one byte replies with the number of bytes and puts them
  -- into the file, and `fuseserver_read` of so many bytes at that offset then replies with these
  -- bytes.
  pub fuseserver_read-fuseserver_write :
      (i off : ℕ) (buf : Text) (f : File) (w : World L S)
      → Has w.1 i f
      → 0 < length buf
      → room (e.get w.1 i).0 i (write_at off buf f.content)
      → (v : World L S) × (fuseserver_write e lc i buf off w ≡ some (reply_write (length buf), v))
        × Has v.1 i (written off buf f)
        × Gives Has (fuseserver_read e lc i (length buf) off) v (λ r. r ≡ reply_buf buf)
  unfolding fuseserver_write write Locked.write fuseserver_read read Locked.read Locked.finish_two
      Operations.write Operations.read
  fuseserver_read-fuseserver_write i off buf f w h some_bytes more =
      let s = w.1 in
      let (r, c) = store.get_file s i f h in
      let (done, there) = put_back i f (write_at off buf f.content) s h more in
      let v : World L S = left lc w i (e.put (e.get s i).0 i (write_at off buf f.content)).0 in
      let (r2, c2) = store.get_file v.1 i (written off buf f) there in
      (
        v,
        rw (r, c, done) refl,
        there,
        (
          reply_buf buf,
          left lc v i (e.get v.1 i).0,
          rw (r2, c2, read_at-write_at off buf f.content some_bytes) refl,
          refl,
          store.get_kept v.1 i (written off buf f) there,
        ),
      )

-- ===== src/Fuse/Readdir.antt =====
-- `fuseserver_readdir`: a listing that a client reads in pieces.
use lab_cse.Prelude.{
  ℕ, ◌+◌, ◌-◌, ◌≤◌, ◌≡◌, refl, ap, sym, subst, ◌∙◌, true, false, some, List, [], ◌∷◌, ◌++◌, arith,
  length, take, drop, ltb, Bool-cases, inl, inr, length-append, drop-append_length, take_all,
}
use lab_cse.Prelude.Text.{Text}
use mathlib.Core.List.{append_assoc, append-nil}
use lab_cse.Yfs.Format.{Dirent}
use lab_cse.Yfs.Entries.{content, AllPlain}
use lab_cse.Yfs.Extents.{Extents, Locks, File, IsStore, t_dir}
use lab_cse.Yfs.Operations.{ok}
use lab_cse.Yfs.Locked
use lab_cse.Yfs.Directory.{readdir-entries}
use lab_cse.Fuse.{Reply, reply_buf, c_str}
use lab_cse.Fuse.Steps.{World, Run, pure, go_on, called_two}
use lab_cse.Fuse.Listing.{Dirbuf, empty_buf, Dirents, dirbuf_add, add_all, limited, min}
use lab_cse.Fuse.Files.{isdir}
use lab_cse.Fuse.Handlers.{readdir, readdir_if, fuseserver_readdir}
use lab_cse.Fuse.Rules.{Gives, gives_then, left, isdir-Gives}

-- What `fuse_add_dirent` is documented to do: it writes as many bytes as `fuse_dirent_size` says.
abbrev pub IsDirents : Dirents → Type 0
IsDirents fuse = (n : Text) (i o : ℕ) → length (fuse.dirent n i o) ≡ fuse.dirent_size (length n)

-- The offset behind an entry that stands at `o`.
abbrev pub behind : Dirents → ℕ → Dirent → ℕ
behind fuse o d = o + fuse.dirent_size (length (c_str d.name))

-- The offset behind the entries, where the first stands at `o`.
abbrev pub end_of : Dirents → ℕ → List Dirent → ℕ
end_of fuse o [] = o
end_of fuse o (d ∷ ds) = end_of fuse (behind fuse o d) ds

-- The entries as FUSE has them, each with the offset behind it.
abbrev pub listing : Dirents → ℕ → List Dirent → Text
listing fuse o [] = []
listing fuse o (d ∷ ds) =
    fuse.dirent (c_str d.name) d.inum (behind fuse o d) ++ listing fuse (behind fuse o d) ds

take-min : (n : ℕ) (xs : Text) → take (min (length xs) n) xs ≡ take n xs
take-min n xs = elim (Bool-cases (ltb (length xs) n)) [
  | inl e ↦
      rw e (
        take_all {0} (length xs) xs (omega arith)
        ∙ sym (take_all {0} n xs (ltb_le (length xs) n e)))
  | inr e ↦ rw e refl
]
  where
    ltb_le : (a b : ℕ) → ltb a b ≡ true → a ≤ b
    ltb_le a b e = ground arith

-- `reply_buf_limited` at an offset that has `xs` before it.
limited-append :
    (xs ys : Text) (size off maxsize : ℕ)
    → length xs ≡ off
    → off + length ys ≡ size
    → limited (xs ++ ys) size off maxsize ≡ take maxsize ys
unfolding limited
limited-append xs ys size off maxsize before all = elim (Bool-cases (ltb off size)) [
  | inl e ↦
      let rest : size - off ≡ length ys = omega (arith, all) in
      let there : drop off (xs ++ ys) ≡ ys =
        subst (λ n. drop n (xs ++ ys) ≡ ys) before (drop-append_length {0} xs ys) in
      rw (e, rest, there) (take-min maxsize ys)
  | inr e ↦ rw e (
      sym (
        ap (take maxsize) (nothing ys (no_more (length ys) e all))
        ∙ take_all {0} maxsize [] (omega arith)))
]
  where
    nothing : (ys : Text) → length ys ≡ 0 → ys ≡ []
    nothing [] h = refl
    nothing (y ∷ ys) h = absurd (omega (arith, h))

    no_more : (n : ℕ) → ltb off size ≡ false → off + n ≡ size → n ≡ 0
    no_more n e all = ground arith

module _ (fuse : Dirents) (is : IsDirents fuse) where
  length-listing : (o : ℕ) (es : List Dirent) → o + length (listing fuse o es) ≡ end_of fuse o es
  length-listing o [] = omega arith
  length-listing o (d ∷ ds) =
      let at = behind fuse o d in
      let one = fuse.dirent (c_str d.name) d.inum at in
      omega (arith, length-append {0} one (listing fuse at ds), is (c_str d.name) d.inum at)
      ∙ length-listing at ds

  add_all-listing :
      (b : Dirbuf) (es : List Dirent)
      → length b.p ≡ b.size
      → ((add_all fuse b es).p ≡ b.p ++ listing fuse b.size es)
        × ((add_all fuse b es).size ≡ end_of fuse b.size es)
  unfolding add_all dirbuf_add
  add_all-listing b [] full = (sym (append-nil b.p), refl)
  add_all-listing b (d ∷ ds) full =
      let at = behind fuse b.size d in
      let one = fuse.dirent (c_str d.name) d.inum at in
      let whole : take b.size b.p ≡ b.p = take_all {0} b.size b.p (omega (arith, full)) in
      let next : Dirbuf = record { p = take b.size b.p ++ one; size = at } in
      let longer : length (take b.size b.p ++ one) ≡ at =
        ap (λ p. length (p ++ one)) whole
        ∙ omega (arith, length-append {0} b.p one, full, is (c_str d.name) d.inum at) in
      let (p, n) = add_all-listing next ds longer in
      (
        p
            ∙ ap (λ q. (q ++ one) ++ listing fuse at ds) whole
            ∙ append_assoc b.p one (listing fuse at ds),
        n,
      )

  listing-append :
      (o : ℕ) (es ds : List Dirent)
      → listing fuse o (es ++ ds) ≡ listing fuse o es ++ listing fuse (end_of fuse o es) ds
  listing-append o [] ds = refl
  listing-append o (d ∷ es) ds =
      let at = behind fuse o d in
      let one = fuse.dirent (c_str d.name) d.inum at in
      ap (λ l. one ++ l) (listing-append at es ds)
      ∙ sym (append_assoc one (listing fuse at es) (listing fuse (end_of fuse at es) ds))

  end_of-append :
      (o : ℕ) (es ds : List Dirent) → end_of fuse o (es ++ ds) ≡ end_of fuse (end_of fuse o es) ds
  end_of-append o [] ds = refl
  end_of-append o (d ∷ es) ds = end_of-append (behind fuse o d) es ds

  -- A listing of entries from the offset behind the first of them.
  resumed :
      (es ds : List Dirent) (maxsize : ℕ)
      → limited
          (add_all fuse empty_buf (es ++ ds)).p
          (add_all fuse empty_buf (es ++ ds)).size
          (end_of fuse 0 es)
          maxsize
        ≡ take maxsize (listing fuse (end_of fuse 0 es) ds)
  resumed es ds maxsize =
      let (p, n) = add_all-listing empty_buf (es ++ ds) refl in
      let mid = end_of fuse 0 es in
      ap (λ q. limited q (add_all fuse empty_buf (es ++ ds)).size mid maxsize)
        (p ∙ listing-append 0 es ds)
      ∙ limited-append (listing fuse 0 es) (listing fuse mid ds)
          (add_all fuse empty_buf (es ++ ds)).size mid maxsize (omega (arith, length-listing 0 es))
          (length-listing mid ds ∙ sym (end_of-append 0 es ds) ∙ sym n)

  module _ {S L : Type 0} (e : Extents S) (lc : Locks L) (Has : S → ℕ → File → Type 0)
      (room : S → ℕ → Text → Type 0) (can_create : S → ℕ → Type 0)
      (store : IsStore e Has room can_create) where
    -- Let `fuse_add_dirent` write as many bytes as `fuse_dirent_size` says, let the server of extents
    -- keep its promises, and let the directory hold the entries `es` and behind them `ds`, whose
    -- names have no slash and whose numbers have 64 bits. Then `fuseserver_readdir` at the offset that
    -- FUSE has with the last entry of `es`, or at 0 where there is none, replies with the entries
    -- `ds` as FUSE has them, cut to the size of the request.
    pub fuseserver_readdir-listing :
        (junk dir size : ℕ) (es ds : List Dirent) (w : World L S)
        → Has w.1 dir (record { kind = t_dir; content = content (es ++ ds) })
        → AllPlain (es ++ ds)
        → Gives Has
            (fuseserver_readdir e lc fuse junk dir size (end_of fuse 0 es))
            w
            (λ r. r ≡ reply_buf (take size (listing fuse (end_of fuse 0 es) ds)))
    unfolding fuseserver_readdir readdir_if readdir Locked.readdir Locked.finish_two
    fuseserver_readdir-listing junk dir size es ds w h plain =
        let f : File = record { kind = t_dir; content = content (es ++ ds) } in
        let mid = end_of fuse 0 es in
        gives_then Has (isdir e lc dir) (readdir_if e lc fuse junk dir size mid) w (λ b. b ≡ true)
          (λ r. r ≡ reply_buf (take size (listing fuse mid ds)))
          (isdir-Gives e lc Has room can_create store dir f w h)
          (λ b v is_dir same.
            let h1 = same dir f h in
            let read =
              readdir-entries e Has room can_create store v.1 junk dir (es ++ ds) h1 plain in
            let ran : readdir e lc junk dir v
                ≡ some ((ok, es ++ ds), left lc v dir (e.get v.1 dir).0) =
              ap (λ o. called_two (Locked.finish_two e lc (lc.acquire v.0 dir) dir o)) read in
            let reply : ℕ × List Dirent → Run (World L S) Reply = λ r.
              let b = add_all fuse empty_buf r.1 in
              pure (reply_buf (limited b.p b.size mid size)) in
            (
              reply_buf (take size (listing fuse mid ds)),
              left lc v dir (e.get v.1 dir).0,
              ap (λ b. readdir_if e lc fuse junk dir size mid b v) is_dir
                  ∙ ap (go_on reply) ran
                  ∙ ap (λ t. some (reply_buf t, left lc v dir (e.get v.1 dir).0))
                      (resumed es ds size),
              refl,
              store.get_kept v.1 dir f h1,
            ))

-- ===== src/Yfs/Directory.antt =====
-- `create` and `mkdir` of yfs_client.cc seen through `lookup`, on any server of extents that keeps
-- its promises.
use lab_cse.Prelude.{
  ℕ, ◌+◌, ◌≤◌, ◌≡◌, ◌≢◌, refl, ap, subst, ◌∙◌, true, false, Option, none, some, List, [], ◌∷◌, ◌++◌,
  arith, length, length-append, if◌then◌else◌,
}
use lab_cse.Prelude.Text.{Text, text_eq}
use lab_cse.Yfs.Format.{slash, has_slash, filename, Dirent, entry, read_entries, find_entry}
use lab_cse.Yfs.Entries.{
  content, AllPlain, or_else, read_entries-content, append-AllPlain, content-append,
  find_entry-append,
}
use lab_cse.Yfs.Extents.{Extents, File, t_dir, t_file, IsStore}
use lab_cse.Yfs.Operations.{
  ok, exist, has_kind, isdir, listed, readdir, found_in, find_in, lookup, link, make, unless_found,
  create,
}

-- What `_lookup` reports for a name with this number.
abbrev pub reported : Option ℕ → ℕ × Option ℕ
reported none = (ok, none)
reported (some inum) = (exist, some inum)

-- A directory takes at least a byte for every entry.
length-entries : (es : List Dirent) → length es ≤ length (content es)
unfolding entry
length-entries [] = omega arith
length-entries (d ∷ es) =
    let more = slash ∷ (filename d.inum ++ (slash ∷ [])) in
    omega (
      arith,
      length-entries es,
      length-append {0} (entry d) (content es),
      length-append {0} d.name more,
    )

found_in_lem :
    {S : Type 0} (e : Extents S) (s : S) (f : Option ℕ)
    → found_in e s f ≡ (s, (reported f).0, (reported f).1)
unfolding found_in
found_in_lem e s none = refl
found_in_lem e s (some inum) = refl

-- The server after a lookup in a directory.
abbrev pub looked : {S : Type 0} → Extents S → S → ℕ → S
looked e s parent = (e.get (e.getattr s parent).0 parent).0

module _ {S : Type 0} (e : Extents S) (Has : S → ℕ → File → Type 0) (room : S → ℕ → Text → Type 0)
    (can_create : S → ℕ → Type 0) (store : IsStore e Has room can_create) where
  -- A lookup in a directory keeps what the server has.
  pub looked-kept :
      (s : S) (parent : ℕ) (d : File)
      → Has s parent d
      → (j : ℕ) (g : File) → Has s j g
      → Has (looked e s parent) j g
  looked-kept s parent d h j g k =
      store.get_kept (e.getattr s parent).0 parent d (store.getattr_kept s parent d h parent d h) j
        g (store.getattr_kept s parent d h j g k)

  pub isdir-dir :
      (s : S) (parent : ℕ) (t : Text)
      → Has s parent (record { kind = t_dir; content = t })
      → isdir e s parent ≡ ((e.getattr s parent).0, true)
  unfolding isdir has_kind
  isdir-dir s parent t h =
      let (r, k, _) = store.getattr_file s parent (record { kind = t_dir; content = t }) h in
      rw (r, k) refl

  pub readdir-entries :
      (s : S) (junk parent : ℕ) (es : List Dirent)
      → Has s parent (record { kind = t_dir; content = content es })
      → AllPlain es
      → readdir e s junk parent ≡ some ((e.get s parent).0, ok, es)
  unfolding readdir listed
  readdir-entries s junk parent es h plain =
      let (r, c) = store.get_file s parent (record { kind = t_dir; content = content es }) h in
      let read : read_entries (length (content es) + 1) junk (content es) ≡ some es =
        read_entries-content es (length (content es) + 1) junk plain
          (omega (arith, length-entries es)) in
      rw (r, c, read) refl

  pub lookup-entries :
      (s : S) (junk parent : ℕ) (es : List Dirent) (name : Text)
      → Has s parent (record { kind = t_dir; content = content es })
      → AllPlain es
      → lookup e s junk parent name
        ≡ some (
          looked e s parent,
          (reported (find_entry es name)).0,
          (reported (find_entry es name)).1,
        )
  unfolding lookup find_in
  lookup-entries s junk parent es name h plain =
      let s1 = (e.getattr s parent).0 in
      let d : File = record { kind = t_dir; content = content es } in
      let h1 = store.getattr_kept s parent d h parent d h in
      rw (isdir-dir s parent (content es) h, readdir-entries s1 junk parent es h1 plain)
        (ap (λ r. some r) (found_in_lem e (looked e s parent) (find_entry es name)))

  -- What `link` leaves: the entry is the last one of its directory, and an empty file elsewhere stays.
  link-entries :
      (s : S) (parent ino kind : ℕ) (es : List Dirent) (name : Text)
      → Has s parent (record { kind = t_dir; content = content es })
      → Has s ino (record { kind = kind; content = [] })
      → ino ≢ parent
      → room (e.get s parent).0 parent (content es ++ entry (record { name = name; inum = ino }))
      → (s1 : S) × (link e s parent name ino ≡ (s1, ok, ino))
        × Has s1 parent (record {
          kind = t_dir;
          content = content (es ++ (record { name = name; inum = ino } ∷ []));
        })
        × Has s1 ino (record { kind = kind; content = [] })
  unfolding link
  link-entries s parent ino kind es name h k apart more =
      let d : File = record { kind = t_dir; content = content es } in
      let new : Dirent = record { name = name; inum = ino } in
      let (r, c) = store.get_file s parent d h in
      let s1 = (e.get s parent).0 in
      let t = content es ++ entry new in
      let h1 = store.get_kept s parent d h parent d h in
      let k1 = store.get_kept s parent d h ino (record { kind = kind; content = [] }) k in
      let (done, file) = store.put_file s1 parent d t h1 more in
      (
        (e.put s1 parent t).0,
        rw (r, c, done) refl,
        subst (λ u. Has (e.put s1 parent t).0 parent (record { kind = t_dir; content = u }))
            (content-append es new) file,
        store.put_kept s1 parent d t h1 more ino kind apart k1,
      )

  -- A new entry and a new file or directory.
  make-entries :
      (s : S) (kind parent : ℕ) (es : List Dirent) (name : Text)
      → Has s parent (record { kind = t_dir; content = content es })
      → can_create s kind
      → (let (s1, _, ino) = e.create s kind in
          room
            (e.get s1 parent).0
            parent
            (content es ++ entry (record { name = name; inum = ino })))
      → (let ino = (e.create s kind).2 in
          (s2 : S) × (make e kind s parent name ≡ (s2, ok, ino))
          × Has s2 parent (record {
            kind = t_dir;
            content = content (es ++ (record { name = name; inum = ino } ∷ []));
          })
          × Has s2 ino (record { kind = kind; content = [] }))
  unfolding make
  make-entries s kind parent es name h can more =
      let (s1, _, ino) = e.create s kind in
      let d : File = record { kind = t_dir; content = content es } in
      let (h1, apart) = store.create_kept s kind can parent d h in
      link-entries s1 parent ino kind es name h1 (store.create_file s kind can).1 apart more

  -- What `_create` and `_mkdir` of a new name leave.
  pub unless_found-entries :
      (s : S) (kind junk parent : ℕ) (es : List Dirent) (name : Text)
      → Has s parent (record { kind = t_dir; content = content es })
      → AllPlain es
      → has_slash name ≡ false
      → find_entry es name ≡ none
      → can_create (looked e s parent) kind
      → (let (s1, _, ino) = e.create (looked e s parent) kind in
          room
            (e.get s1 parent).0
            parent
            (content es ++ entry (record { name = name; inum = ino })))
      → (let ino = (e.create (looked e s parent) kind).2 in
          (s2 : S) × (unless_found e kind parent name (lookup e s junk parent name)
            ≡ some (s2, ok, ino))
          × (Has s2 parent (record {
            kind = t_dir;
            content = content (es ++ (record { name = name; inum = ino } ∷ []));
          }))
          × (Has s2 ino (record { kind = kind; content = [] }))
          × AllPlain (es ++ (record { name = name; inum = ino } ∷ [])))
  unfolding unless_found
  unless_found-entries s kind junk parent es name h plain slashless new can more =
      let s0 = looked e s parent in
      let ino = (e.create s0 kind).2 in
      let d : File = record { kind = t_dir; content = content es } in
      let h0 = looked-kept s parent d h parent d h in
      let (s2, made, dir, file) = make-entries s0 kind parent es name h0 can more in
      let none_found : lookup e s junk parent name ≡ some (s0, ok, none) =
        lookup-entries s junk parent es name h plain
        ∙ ap (λ f. some (s0, (reported f).0, (reported f).1)) new in
      (
        s2,
        ap (unless_found e kind parent name) none_found ∙ ap (λ r. some r) made,
        dir,
        file,
        append-AllPlain es (record { name = name; inum = ino }) plain slashless
            (store.create_file s0 kind can).0,
      )

  -- Let the server keep its promises, let `parent` be a directory with entries whose names have no
  -- slash and whose numbers have 64 bits, let the new name have no slash and be in no entry, and
  -- let the server be able to create a file and to take the new content. Then `_create` replies OK
  -- with the number of an empty file, and `_lookup` of any name then gives what the old entries
  -- give, and else that number for the new name.
  pub lookup-create :
      (s : S) (junk junk2 parent : ℕ) (es : List Dirent) (name other : Text)
      → Has s parent (record { kind = t_dir; content = content es })
      → AllPlain es
      → has_slash name ≡ false
      → find_entry es name ≡ none
      → can_create (looked e s parent) t_file
      → (let (s1, _, ino) = e.create (looked e s parent) t_file in
          room
            (e.get s1 parent).0
            parent
            (content es ++ entry (record { name = name; inum = ino })))
      → (let ino = (e.create (looked e s parent) t_file).2 in
          let r =
            reported
              (or_else (find_entry es other) (if text_eq name other then some ino else none)) in
          (s2 : S) × (create e s junk parent name ≡ some (s2, ok, ino))
          × (Has s2 ino (record { kind = t_file; content = [] }))
          × (lookup e s2 junk2 parent other ≡ some (looked e s2 parent, r.0, r.1)))
  unfolding create unless_found
  lookup-create s junk junk2 parent es name other h plain slashless new can more =
      let ino = (e.create (looked e s parent) t_file).2 in
      let (s2, made, dir, file, all) =
        unless_found-entries s t_file junk parent es name h plain slashless new can more in
      (
        s2,
        made,
        file,
        lookup-entries s2 junk2 parent (es ++ (record { name = name; inum = ino } ∷ [])) other dir
              all
            ∙ ap (λ f. some (looked e s2 parent, (reported f).0, (reported f).1))
                (find_entry-append es (record { name = name; inum = ino }) other),
      )

-- ===== src/Fuse/Creation.antt =====
-- Requests of FUSE that make a file or a directory, and the lookup of its name.
use lab_cse.Prelude.{
  ℕ, ◌≡◌, refl, ap, ◌∙◌, true, false, none, some, List, [], ◌∷◌, ◌++◌, ◌==◌, if◌then◌else◌,
}
use lab_cse.Prelude.Text.{Text, text_eq, text_eq_refl}
use lab_cse.Yfs.Format.{Dirent, entry, find_entry, has_slash}
use lab_cse.Yfs.Entries.{content, AllPlain, or_else, find_entry-append}
use lab_cse.Yfs.Extents.{Extents, Locks, File, IsStore, t_file, t_dir}
use lab_cse.Yfs.Operations
use lab_cse.Yfs.Operations.{ok, exist}
use lab_cse.Yfs.Locked
use lab_cse.Yfs.Directory.{looked, reported, looked-kept, lookup-entries, unless_found-entries}
use lab_cse.Fuse.{EntryParam, Reply, reply_create, reply_entry, entry_param, made}
use lab_cse.Fuse.Steps.{World, pure, go_on, ◌>>=◌, called_two}
use lab_cse.Fuse.Files.{getattr}
use lab_cse.Fuse.Handlers.{
  create, mkdir, create_or_mkdir, created, created_if, fuseserver_createhelper, fuseserver_create,
  fuseserver_mkdir, lookup, looked_up, fuseserver_lookup,
}
use lab_cse.Fuse.Rules.{Gives, gives_then, IsStatOf, HasAttributes, Keeps, left, getattr-Gives}

-- The entry is that of the inode `ino`, which holds this file.
pub record IsEntryOf (i : ℕ) (f : File) (p : EntryParam) : Type 0 where
  pub ino : p.ino ≡ i
  pub attr : IsStatOf i f p.attr
  pub generation : p.generation ≡ 0

abbrev pub RepliesWith : (EntryParam → Reply) → ℕ → File → Reply → Type 0
RepliesWith done i f r = (p : EntryParam) × (r ≡ done p) × IsEntryOf i f p

module _ {S L : Type 0} (e : Extents S) (lc : Locks L) (Has : S → ℕ → File → Type 0)
    (room : S → ℕ → Text → Type 0) (can_create : S → ℕ → Type 0)
    (store : IsStore e Has room can_create) where
  created-Gives :
      (r i : ℕ) (f : File) (w : World L S)
      → Has w.1 i f
      → Gives Has (created e lc (r, i)) w (λ x. (x.0 ≡ ok) × IsEntryOf i f x.1)
  unfolding created
  created-Gives r i f w h =
      gives_then Has (getattr e lc i) (λ st. pure (st.0, entry_param i st.1)) w (HasAttributes i f)
        (λ x. (x.0 ≡ ok) × IsEntryOf i f x.1) (getattr-Gives e lc Has room can_create store i f w h)
        (λ st v (k, is) same. (
          (st.0, entry_param i st.1),
          v,
          refl,
          (k, record { ino = refl; attr = is; generation = refl }),
          λ j g x. x,
        ))

  made_lem : (done : EntryParam → Reply) (r : ℕ × EntryParam) → r.0 ≡ ok → made done r ≡ done r.1
  made_lem done (r, p) k = rw k refl

  -- The reply of a handler whose call of `create` or `mkdir` has succeeded.
  replied-Keeps :
      (done : EntryParam → Reply) (t junk parent i : ℕ) (f : File) (name : Text) (w v : World L S)
      → create_or_mkdir e lc junk parent name (t == t_file) w ≡ some ((ok, i), v)
      → Has v.1 i f
      → (r : Reply) × (u : World L S) × ((fuseserver_createhelper e lc junk parent name t >>= λ x.
              pure (made done x))
            w
          ≡ some (r, u))
        × RepliesWith done i f r
        × Keeps Has v.1 u.1
  unfolding fuseserver_createhelper created_if
  replied-Keeps done t junk parent i f name w v ran h =
      let (x, u, e2, (k, is), same) = created-Gives ok i f v h in
      (
        made done x,
        u,
        ap (λ o. go_on (λ r. pure (made done r)) (go_on (λ r. created_if e lc r (r.0 == ok)) o)) ran
            ∙ ap (go_on (λ r. pure (made done r))) e2,
        (x.1, made_lem done x k, is),
        same,
      )

  lookup-Gives :
      (junk parent i : ℕ) (f : File) (es : List Dirent) (name : Text) (w : World L S)
      → Has w.1 parent (record { kind = t_dir; content = content es })
      → AllPlain es
      → find_entry es name ≡ some i
      → Has w.1 i f
      → Gives Has (fuseserver_lookup e lc junk parent name) w (RepliesWith reply_entry i f)
  unfolding fuseserver_lookup lookup looked_up Locked.lookup Locked.finish_two
  lookup-Gives junk parent i f es name w h plain found there =
      let s = looked e w.1 parent in
      let v : World L S = left lc w parent s in
      let d : File = record { kind = t_dir; content = content es } in
      let kept = looked-kept e Has room can_create store w.1 parent d h in
      let answer : Operations.lookup e w.1 junk parent name ≡ some (s, exist, some i) =
        lookup-entries e Has room can_create store w.1 junk parent es name h plain
        ∙ ap (λ o. some (s, (reported o).0, (reported o).1)) found in
      let ran : lookup e lc junk parent name w ≡ some ((exist, some i), v) =
        ap (λ o. called_two (Locked.finish_two e lc (lc.acquire w.0 parent) parent o)) answer in
      let (st, u, e2, (k, is), same2) =
        getattr-Gives e lc Has room can_create store i f v (kept i f there) in
      (
        reply_entry (entry_param i st.1),
        u,
        ap (go_on (λ r. looked_up e lc r.1)) ran
            ∙ ap (go_on (λ st. pure (reply_entry (entry_param i st.1)))) e2,
        (entry_param i st.1, refl, record { ino = refl; attr = is; generation = refl }),
        λ j g x. same2 j g (kept j g x),
      )

  found_new :
      (es : List Dirent) (name : Text) (i : ℕ)
      → find_entry es name ≡ none
      → find_entry (es ++ (record { name = name; inum = i } ∷ [])) name ≡ some i
  found_new es name i new =
      find_entry-append es (record { name = name; inum = i }) name
      ∙ ap (λ o. or_else o (if text_eq name name then some i else none)) new
      ∙ ap (λ b. if b then some i else none) (text_eq_refl name)

  -- A handler that makes a new name of this kind, and the lookup that finds what it has made.
  answered_found :
      (done : EntryParam → Reply) (kind junk junk2 parent : ℕ) (es : List Dirent) (name : Text)
      (w : World L S)
      → ((s : S) (i : ℕ)
          → Operations.unless_found e kind parent name (Operations.lookup e w.1 junk parent name)
            ≡ some (s, ok, i)
          → create_or_mkdir e lc junk parent name (kind == t_file) w
            ≡ some ((ok, i), left lc w parent s))
      → Has w.1 parent (record { kind = t_dir; content = content es })
      → AllPlain es
      → has_slash name ≡ false
      → find_entry es name ≡ none
      → can_create (looked e w.1 parent) kind
      → (let (s1, _, ino) = e.create (looked e w.1 parent) kind in
          room
            (e.get s1 parent).0
            parent
            (content es ++ entry (record { name = name; inum = ino })))
      → (let ino = (e.create (looked e w.1 parent) kind).2 in
          let f : File = record { kind = kind; content = [] } in
          (r : Reply) × (v : World L S) × ((fuseserver_createhelper e lc junk parent name kind
                >>= λ x. pure (made done x))
              w
            ≡ some (r, v))
          × RepliesWith done ino f r
          × Gives Has (fuseserver_lookup e lc junk2 parent name) v (RepliesWith reply_entry ino f))
  answered_found done kind junk junk2 parent es name w runs h plain slashless new can more =
      let s = w.1 in
      let ino = (e.create (looked e s parent) kind).2 in
      let f : File = record { kind = kind; content = [] } in
      let (s2, made_it, dir, file, all) =
        unless_found-entries e Has room can_create store s kind junk parent es name h plain
          slashless new can more in
      let d : File = record {
        kind = t_dir;
        content = content (es ++ (record { name = name; inum = ino } ∷ []));
      } in
      let (r, v, ran, is, same) =
        replied-Keeps done kind junk parent ino f name w (left lc w parent s2) (runs s2 ino made_it)
          file in
      (
        r,
        v,
        ran,
        is,
        lookup-Gives junk2 parent ino f (es ++ (record { name = name; inum = ino } ∷ [])) name v
            (same parent d dir) all (found_new es name ino new) (same ino f file),
      )

  create_runs :
      (junk parent : ℕ) (name : Text) (w : World L S) (s : S) (i : ℕ)
      → Operations.unless_found e t_file parent name (Operations.lookup e w.1 junk parent name)
        ≡ some (s, ok, i)
      → create_or_mkdir e lc junk parent name true w ≡ some ((ok, i), left lc w parent s)
  unfolding create_or_mkdir create Locked.create Locked.finish_two Operations.create
  create_runs junk parent name w s i made_it =
      ap (λ o. called_two (Locked.finish_two e lc (lc.acquire w.0 parent) parent o)) made_it

  mkdir_runs :
      (junk parent : ℕ) (name : Text) (w : World L S) (s : S) (i : ℕ)
      → Operations.unless_found e t_dir parent name (Operations.lookup e w.1 junk parent name)
        ≡ some (s, ok, i)
      → create_or_mkdir e lc junk parent name false w ≡ some ((ok, i), left lc w parent s)
  unfolding create_or_mkdir mkdir Locked.mkdir Locked.finish_two Operations.mkdir
  mkdir_runs junk parent name w s i made_it =
      ap (λ o. called_two (Locked.finish_two e lc (lc.acquire w.0 parent) parent o)) made_it

  -- Let the server of extents keep its promises, let `parent` be a directory with entries whose names
  -- have no slash and whose numbers have 64 bits, let the new name have no slash and be in no
  -- entry, and let the server be able to create a file and to take the new content. Then
  -- `fuseserver_create` replies with an entry for a new number that has the attributes of
  -- an empty file, and `fuseserver_lookup` of the name then replies with such an entry for that number too.
  pub fuseserver_lookup-fuseserver_create :
      (junk junk2 parent : ℕ) (es : List Dirent) (name : Text) (w : World L S)
      → Has w.1 parent (record { kind = t_dir; content = content es })
      → AllPlain es
      → has_slash name ≡ false
      → find_entry es name ≡ none
      → can_create (looked e w.1 parent) t_file
      → (let (s1, _, ino) = e.create (looked e w.1 parent) t_file in
          room
            (e.get s1 parent).0
            parent
            (content es ++ entry (record { name = name; inum = ino })))
      → (let ino = (e.create (looked e w.1 parent) t_file).2 in
          let f : File = record { kind = t_file; content = [] } in
          (r : Reply) × (v : World L S) × (fuseserver_create e lc junk parent name w ≡ some (r, v))
          × RepliesWith reply_create ino f r
          × Gives Has (fuseserver_lookup e lc junk2 parent name) v (RepliesWith reply_entry ino f))
  unfolding fuseserver_create
  fuseserver_lookup-fuseserver_create junk junk2 parent es name w =
      answered_found reply_create t_file junk junk2 parent es name w
        (create_runs junk parent name w)

  -- Let the server of extents keep its promises, let `parent` be a directory with entries whose names
  -- have no slash and whose numbers have 64 bits, let the new name have no slash and be in no
  -- entry, and let the server be able to create a directory and to take the new content. Then
  -- `fuseserver_mkdir` replies with an entry for a new number that has the attributes of
  -- an empty directory, and `fuseserver_lookup` of the name then replies with such an entry for that number too.
  pub fuseserver_lookup-fuseserver_mkdir :
      (junk junk2 parent : ℕ) (es : List Dirent) (name : Text) (w : World L S)
      → Has w.1 parent (record { kind = t_dir; content = content es })
      → AllPlain es
      → has_slash name ≡ false
      → find_entry es name ≡ none
      → can_create (looked e w.1 parent) t_dir
      → (let (s1, _, ino) = e.create (looked e w.1 parent) t_dir in
          room
            (e.get s1 parent).0
            parent
            (content es ++ entry (record { name = name; inum = ino })))
      → (let ino = (e.create (looked e w.1 parent) t_dir).2 in
          let f : File = record { kind = t_dir; content = [] } in
          (r : Reply) × (v : World L S) × (fuseserver_mkdir e lc junk parent name w ≡ some (r, v))
          × RepliesWith reply_entry ino f r
          × Gives Has (fuseserver_lookup e lc junk2 parent name) v (RepliesWith reply_entry ino f))
  unfolding fuseserver_mkdir
  fuseserver_lookup-fuseserver_mkdir junk junk2 parent es name w =
      answered_found reply_entry t_dir junk junk2 parent es name w (mkdir_runs junk parent name w)

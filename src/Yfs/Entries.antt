-- ===== src/Yfs/Entries.antt =====
-- Directories are read back as they were written.
use mathlib.Core.List.{append_assoc, append-nil}
use lab_cse.Prelude.{
  ℕ, zero, suc, ◌+◌, ◌<◌, ◌^◌, ◌≡◌, ◌≢◌, refl, ap, sym, ◌∙◌, true, false, Option, none, some, List,
  [], ◌∷◌, ◌++◌, arith, length, length-append, if◌then◌else◌, Bool-cases, inl, inr,
}
use lab_cse.Prelude.Text.{Text, text_eq}
use lab_cse.Yfs.Format.{
  slash, filename, n2i, before, has_slash, behind, after, push_front, Dirent, entry, read_entries,
  find_entry,
}
use lab_cse.Yfs.Digits.{n2i-filename, has_slash-filename}

-- The content of a directory with the entries.
abbrev pub content : List Dirent → Text
content [] = []
content (e ∷ es) = entry e ++ content es

-- Names without a slash, numbers of 64 bits.
abbrev pub AllPlain : List Dirent → Type 0
AllPlain [] = Unit {0}
AllPlain (e ∷ es) = (has_slash e.name ≡ false) × (e.inum < 2 ^ 64) × AllPlain es

before-slash : (xs ys : Text) → has_slash xs ≡ false → before (xs ++ (slash ∷ ys)) ≡ xs
unfolding before has_slash
before-slash [] ys h = refl
before-slash (x ∷ xs) ys h = ground (arith, before-slash xs ys)

behind-slash : (xs ys : Text) → has_slash xs ≡ false → behind (xs ++ (slash ∷ ys)) ≡ ys
unfolding behind has_slash
behind-slash [] ys h = refl
behind-slash (x ∷ xs) ys h = ground (arith, behind-slash xs ys)

has_slash-append : (xs ys : Text) → has_slash (xs ++ (slash ∷ ys)) ≡ true
unfolding has_slash
has_slash-append [] ys = refl
has_slash-append (x ∷ xs) ys = ground (arith, has_slash-append xs ys)

after-slash : (xs ys : Text) → has_slash xs ≡ false → after (xs ++ (slash ∷ ys)) ≡ ys
unfolding after
after-slash xs ys h = rw (has_slash-append xs ys) (behind-slash xs ys h)

after_none : (buf : Text) → has_slash buf ≡ false → after buf ≡ buf
unfolding after
after_none buf h = rw h refl

entry_lem :
    (e : Dirent) (rest : Text)
    → entry e ++ rest ≡ e.name ++ (slash ∷ (filename e.inum ++ (slash ∷ rest)))
unfolding entry
entry_lem e rest =
    append_assoc e.name _ rest
    ∙ ap (λ t. e.name ++ (slash ∷ t)) (append_assoc (filename e.inum) (slash ∷ []) rest)

-- One round of the loop, on content that is not empty.
read_round :
    (fuel junk : ℕ) (buf : Text)
    → buf ≢ []
    → read_entries (suc fuel) junk buf
      ≡ push_front
          (record { name = before buf; inum = n2i junk (before (after buf)) })
          (read_entries fuel junk (after (after buf)))
unfolding read_entries
read_round fuel junk [] ne = absurd (ne refl)
read_round fuel junk (c ∷ cs) ne = refl

append-nonempty : (xs ys : Text) (c : ℕ) → xs ++ (c ∷ ys) ≢ []
append-nonempty [] ys c e = cc
append-nonempty (x ∷ xs) ys c e = cc

-- `_readdir` reads the entries of a directory in their order, in one round more than there are
-- entries, if no name has a slash and the numbers have 64 bits.
pub read_entries-content :
    (es : List Dirent) (fuel junk : ℕ)
    → AllPlain es
    → length es < fuel
    → read_entries fuel junk (content es) ≡ some es
unfolding read_entries push_front
read_entries-content es zero junk h lt = absurd (omega arith)
read_entries-content [] (suc fuel) junk h lt = refl
read_entries-content (e ∷ es) (suc fuel) junk h lt =
    let rest = content es in
    let number = filename e.inum ++ (slash ∷ rest) in
    let buf = e.name ++ (slash ∷ number) in
    let next = read_entries-content es fuel junk h.2 (omega arith) in
    rw (entry_lem e rest) (
      read_round fuel junk buf (append-nonempty e.name number slash)
      ∙ rw
          (
            before-slash e.name number h.0,
            after-slash e.name number h.0,
            before-slash (filename e.inum) rest (has_slash-filename e.inum),
            after-slash (filename e.inum) rest (has_slash-filename e.inum),
            n2i-filename junk e.inum h.1,
            next,
          )
          refl)

pub append-AllPlain :
    (es : List Dirent) (e : Dirent)
    → AllPlain es
    → has_slash e.name ≡ false
    → e.inum < 2 ^ 64
    → AllPlain (es ++ (e ∷ []))
append-AllPlain [] e h s lt = (s, lt, tt)
append-AllPlain (x ∷ es) e h s lt = (h.0, h.1, append-AllPlain es e h.2 s lt)

pub content-append :
    (es : List Dirent) (e : Dirent) → content es ++ entry e ≡ content (es ++ (e ∷ []))
content-append [] e = sym (append-nil (entry e))
content-append (x ∷ es) e =
    append_assoc (entry x) (content es) (entry e) ∙ ap (λ t. entry x ++ t) (content-append es e)

abbrev pub or_else : Option ℕ → Option ℕ → Option ℕ
or_else none b = b
or_else (some a) b = some a

pub find_entry-append :
    (es : List Dirent) (e : Dirent) (name : Text)
    → find_entry (es ++ (e ∷ [])) name
      ≡ or_else (find_entry es name) (if text_eq e.name name then some e.inum else none)
unfolding find_entry
find_entry-append [] e name = refl
find_entry-append (x ∷ es) e name = elim (Bool-cases (text_eq x.name name)) [
  | inl k ↦ rw k refl
  | inr k ↦ rw k (find_entry-append es e name)
]

-- Let a directory have names without a slash and numbers of 64 bits, and let an entry of that
-- kind be put behind its content. Then `_readdir` reads the old entries and the new one, and the
-- loop of `_lookup` gives for each name the number that it gave before, and, where it found none,
-- that of the new entry if it has the name.
pub find_entry-entry :
    (es : List Dirent) (new : Dirent) (junk : ℕ) (name : Text)
    → AllPlain es
    → has_slash new.name ≡ false
    → new.inum < 2 ^ 64
    → (read_entries (length es + 2) junk (content es ++ entry new) ≡ some (es ++ (new ∷ [])))
      × (find_entry (es ++ (new ∷ [])) name
          ≡ or_else (find_entry es name) (if text_eq new.name name then some new.inum else none))
find_entry-entry es new junk name h s lt = (
  rw (content-append es new) (
      read_entries-content (es ++ (new ∷ [])) (length es + 2) junk (append-AllPlain es new h s lt)
        (omega (arith, length-append {0} es (new ∷ [])))),
  find_entry-append es new name,
)

-- On content that is not empty and has no slash, the loop of `_readdir` never ends.
pub read_entries_stuck :
    (fuel junk : ℕ) (buf : Text)
    → buf ≢ []
    → has_slash buf ≡ false
    → read_entries fuel junk buf ≡ none
unfolding read_entries push_front
read_entries_stuck zero junk buf ne h = refl
read_entries_stuck (suc fuel) junk buf ne h =
    let same : after buf ≡ buf = after_none buf h in
    read_round fuel junk buf ne ∙ rw (same, same, read_entries_stuck fuel junk buf ne h) refl

-- ===== src/Yfs/Tests.antt =====
-- The theorems on directories and content, at a directory with two entries.
use lab_cse.Prelude.{
  ◌+◌, ◌≡◌, ◌≢◌, refl, false, none, some, List, [], ◌∷◌, ◌++◌, arith, length, if◌then◌else◌,
}
use lab_cse.Prelude.Text.{Text, text_eq}
use lab_cse.Yfs.Format.{Dirent, entry, has_slash, read_entries, find_entry}
use lab_cse.Yfs.Entries.{
  content, AllPlain, or_else, read_entries-content, find_entry-entry, read_entries_stuck,
}

abbrev ab : Text
ab = b'a' ∷ b'b' ∷ []

abbrev c : Text
c = b'c' ∷ []

-- The content is `ab/12/c/305/`.
abbrev two : List Dirent
two = record { name = ab; inum = 12 } ∷ record { name = c; inum = 305 } ∷ []

abbrev new : Dirent
new = record { name = b'd' ∷ []; inum = 7 }

two-AllPlain : AllPlain two
unfolding has_slash
two-AllPlain = (refl, omega arith, (refl, omega arith, tt))

new_plain : has_slash new.name ≡ false
unfolding has_slash
new_plain = refl

ab_plain : has_slash ab ≡ false
unfolding has_slash
ab_plain = refl

ab_some : ab ≢ []
ab_some e = cc

read_entries-content_example : read_entries 3 0 (content two) ≡ some two
read_entries-content_example = read_entries-content two 3 0 two-AllPlain (omega arith)

find_entry-entry_example :
    (read_entries (length two + 2) 0 (content two ++ entry new) ≡ some (two ++ (new ∷ [])))
    × (find_entry (two ++ (new ∷ [])) c
        ≡ or_else (find_entry two c) (if text_eq new.name c then some new.inum else none))
find_entry-entry_example = find_entry-entry two new 0 c two-AllPlain new_plain (omega arith)

read_entries_stuck_example : read_entries 50 0 ab ≡ none
read_entries_stuck_example = read_entries_stuck 50 0 ab ab_some ab_plain

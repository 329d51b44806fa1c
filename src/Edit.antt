-- ===== src/Edit.antt =====
-- tools/edit.go: the tool that replaces a text which stands once in a file. A text is the list of its
-- bytes. The check of a path, which follows links, and the failures of the file system are arguments.
pub mod Replaced
mod Tests
use ocg.Base.{
  ℕ, zero, suc, ◌+◌, Bool, true, false, List, [], ◌∷◌, ◌++◌, Option, none, some, if◌then◌else◌,
  length, take, drop,
}
use ocg.Base.Map.{Map, lookup, insert}
use ocg.Base.Search.{index}
use ocg.Base.Text.{text_eq}

abbrev pub Text : Type 0
Text = List ℕ

pub data Node : Type 0 where
  directory : Node
  file : Text → Node

abbrev pub Files : Type 0
Files = Map Text Node

pub data EditError : Type 0 where
  path_required : EditError
  old_text_required : EditError
  not_allowed : Text → EditError
  not_found : Text → EditError
  no_access : EditError
  is_directory : EditError
  read_failed : EditError
  old_text_not_found : EditError
  appears : ℕ → EditError
  write_failed : EditError

-- `EditResult`; Changed and MatchInfo are always the same.
pub data Answer : Type 0 where
  edited : Text → Answer
  refused : EditError → Answer

-- What the file system does: a failed write leaves some content, as the file is truncated first.
pub record Disk : Type 0 where
  pub stat_works : Bool
  pub read_works : Bool
  pub left_by_write : Option Text

-- strings.Count: places that do not overlap; the length of the text is fuel enough.
abbrev pub count_from : (Text → ℕ) → Text → Text → Option ℕ → ℕ
count_from more p s none = 0
count_from more p s (some i) = suc (more (drop (i + length p) s))

unfoldable pub count_loop : ℕ → Text → Text → ℕ
unfolding index
count_loop zero p s = 0
count_loop (suc fuel) p s = count_from (count_loop fuel p) p s (index p s)

unfoldable pub count : Text → Text → ℕ
unfolding count_loop
count p s = count_loop (suc (length s)) p s

abbrev pub replace_at : Text → Text → Text → Option ℕ → Text
replace_at s p new none = s
replace_at s p new (some i) = take i s ++ new ++ drop (i + length p) s

-- strings.Replace of one occurrence.
unfoldable pub replace_first : Text → Text → Text → Text
unfolding index
replace_first s p new = replace_at s p new (index p s)

abbrev pub write_file : Option Text → Text → Text → Files → Answer × Files
write_file none path content fs = (edited path, insert path (file content) fs)
write_file (some left) path content fs = (refused write_failed, insert path (file left) fs)

-- The switch on the number of occurrences.
abbrev pub edit_counted : Disk → Text → Text → Text → Text → Files → ℕ → Answer × Files
edit_counted d path original old_text new_text fs zero = (refused old_text_not_found, fs)
edit_counted d path original old_text new_text fs (suc zero) =
    write_file d.left_by_write path (replace_first original old_text new_text) fs
edit_counted d path original old_text new_text fs (suc (suc n)) =
    (refused (appears (suc (suc n))), fs)

abbrev pub edit_node : Disk → Text → Text → Text → Files → Option Node → Answer × Files
edit_node d path old_text new_text fs none = (refused (not_found path), fs)
edit_node d path old_text new_text fs (some directory) = (refused is_directory, fs)
edit_node d path old_text new_text fs (some (file original)) =
    if d.read_works
    then edit_counted d path original old_text new_text fs (count old_text original)
    else (refused read_failed, fs)

-- What `IsPathAllowed` gives: an absolute path, or why it is not allowed.
pub data Allowed : Type 0 where
  at : Text → Allowed
  denied : Text → Allowed

abbrev pub edit_allowed : Disk → Text → Text → Files → Allowed → Answer × Files
edit_allowed d old_text new_text fs (denied why) = (refused (not_allowed why), fs)
edit_allowed d old_text new_text fs (at path) =
    if d.stat_works
    then edit_node d path old_text new_text fs (lookup path fs)
    else (refused no_access, fs)

abbrev pub edit_old_text : (Text → Allowed) → Disk → Text → Text → Text → Files → Answer × Files
edit_old_text is_path_allowed d path [] new_text fs = (refused old_text_required, fs)
edit_old_text is_path_allowed d path (c ∷ old_text) new_text fs =
    edit_allowed d (c ∷ old_text) new_text fs (is_path_allowed path)

unfoldable pub execute : (Text → Allowed) → Disk → Text → Text → Text → Files → Answer × Files
unfolding count replace_first lookup insert
execute is_path_allowed d [] old_text new_text fs = (refused path_required, fs)
execute is_path_allowed d (c ∷ path) old_text new_text fs =
    edit_old_text is_path_allowed d (c ∷ path) old_text new_text fs

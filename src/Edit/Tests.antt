-- ===== src/Edit/Tests.antt =====
-- Edits of a small file.
use ocg.Base.{◌≡◌, refl, true, [], ◌∷◌, none, nat_eq}
use ocg.Base.Map.{lookup, insert}
use ocg.Base.Search.{index}
use ocg.Base.Text.{codes, text_eq}
use ocg.Edit.{
  Text, file, Files, edited, refused, appears, Disk, Allowed, at, execute, count, count_loop,
  replace_first,
}
use ocg.Edit.Replaced.{Edited, execute-Edited}

abbrev any_path : Text → Allowed
any_path = at

abbrev disk : Disk
disk = record { stat_works = true; read_works = true; left_by_write = none }

abbrev files : Files
files = (codes "/a", file (codes "port=80;")) ∷ (codes "/b", file (codes "aaa")) ∷ []

edit_once : execute any_path disk (codes "/a") (codes "80") (codes "443") files ≡ (
  edited (codes "/a"),
  (codes "/a", file (codes "port=443;")) ∷ (codes "/b", file (codes "aaa")) ∷ [],
)
unfolding execute count count_loop replace_first index lookup insert
edit_once = refl

edit_twice : (execute any_path disk (codes "/b") (codes "a") [] files).0 ≡ refused (appears 3)
unfolding execute count count_loop index lookup
edit_twice = refl

-- Places that overlap are counted once: the text stands twice here, and the edit is made.
edit_overlap : execute any_path disk (codes "/b") (codes "aa") (codes "b") files ≡ (
  edited (codes "/b"),
  (codes "/a", file (codes "port=80;")) ∷ (codes "/b", file (codes "ba")) ∷ [],
)
unfolding execute count count_loop replace_first index lookup insert
edit_overlap = refl

execute-Edited_example :
    Edited any_path disk
      (codes "/a")
      (codes "80")
      (codes "443")
      files
      (execute any_path disk (codes "/a") (codes "80") (codes "443") files)
execute-Edited_example = execute-Edited any_path disk (codes "/a") (codes "80") (codes "443") files

-- ===== src/Tests/Shell.antt =====
-- internal/shellrc: a startup file with one alias in it.
use clawdh.Base.{
  ℕ, ◌≡◌, refl, inl, List, [], ◌∷◌, ◌++◌, Option, some, true, bytes, newline, index_of, starts_with,
}
use clawdh.Shell.Block.{
  begin_marker, end_marker, block, trim_lines, upsert_block, remove_block, has_block, unless_empty,
  content_of,
}
use clawdh.Shell.Search.{Lacks}
use clawdh.Shell.Kept.{ended, upsert_block-inside, remove_block-upsert_block}

abbrev alias_line : List ℕ
alias_line = 97 ∷ 108 ∷ 105 ∷ 97 ∷ 115 ∷ []

abbrev startup : Option (List ℕ)
startup = some (alias_line)

abbrev body : List ℕ
body = 99 ∷ 108 ∷ newline ∷ []

startup-Lacks : Lacks begin_marker alias_line
unfolding begin_marker bytes index_of starts_with
startup-Lacks = refl

body-Lacks : Lacks end_marker (trim_lines body)
unfolding end_marker bytes index_of starts_with trim_lines
body-Lacks = refl

ended-line : ended alias_line ≡ alias_line ++ newline ∷ []
unfolding ended
ended-line = refl

upsert_block-inside_example :
    upsert_block alias_line (some ([] ++ (block body ++ alias_line)))
    ≡ some ([] ++ (block alias_line ++ alias_line))
upsert_block-inside_example =
    upsert_block-inside [] body alias_line alias_line (inl refl) body-Lacks

remove_block-upsert_block_example :
    (has_block (upsert_block body startup) ≡ true)
    × (remove_block (upsert_block body startup) ≡ unless_empty (ended (content_of startup)))
remove_block-upsert_block_example = remove_block-upsert_block body startup startup-Lacks body-Lacks

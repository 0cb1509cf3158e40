-- ===== src/Shell/Block.antt =====
-- internal/shellrc/block.go: the managed block of a shell's rc file, on bytes. A file is some bytes or missing.
use clawdh.Base.{
  ℕ, zero, suc, ◌+◌, ◌-◌, List, [], ◌∷◌, ◌++◌, Option, none, some, Bool, true, false, ◌&&◌, nat_eq,
  length, take, drop, get_elem?, newline, bytes, index_of, if◌then◌else◌,
}

unfoldable pub begin_marker : List ℕ
unfolding bytes
begin_marker = bytes "# >>> clawdh accounts >>>"

unfoldable pub end_marker : List ℕ
unfolding bytes
end_marker = bytes "# <<< clawdh accounts <<<"

-- strings.HasSuffix(s, "\n")
unfoldable pub ends_line : List ℕ → Bool
ends_line [] = false
ends_line (c ∷ []) = nat_eq c newline
ends_line (c ∷ d ∷ s) = ends_line (d ∷ s)

-- strings.Trim(s, "\n")
unfoldable pub trim_left_lines : List ℕ → List ℕ
trim_left_lines [] = []
trim_left_lines (c ∷ s) = elim (nat_eq c newline) [ true ↦ trim_left_lines s | false ↦ c ∷ s ]

unfoldable pub trim_right_lines : List ℕ → List ℕ
trim_right_lines [] = []
trim_right_lines (c ∷ s) = elim (trim_right_lines s) [
  | [] ↦ if nat_eq c newline then [] else c ∷ []
  | d ∷ t ↦ c ∷ d ∷ t
]

unfoldable pub trim_lines : List ℕ → List ℕ
unfolding trim_left_lines trim_right_lines
trim_lines s = trim_right_lines (trim_left_lines s)

-- The block that UpsertBlock writes.
unfoldable pub block : List ℕ → List ℕ
block body = begin_marker ++ newline ∷ (trim_lines body ++ newline ∷ (end_marker ++ newline ∷ []))

-- A newline right behind the end marker is part of the block.
unfoldable pub past_newline : List ℕ → ℕ → ℕ
past_newline content at = elim (get_elem? content at) [
  | some c ↦ if nat_eq c newline then suc at else at
  | none ↦ at
]

unfoldable pub find_block : List ℕ → Option (ℕ × ℕ)
unfolding index_of past_newline
find_block content = elim (index_of begin_marker content) [
  | none ↦ none
  | some start ↦ elim (index_of end_marker (drop start content)) [
    | none ↦ none
    | some i ↦ some (start, past_newline content (start + i + length end_marker))
  ]
]

unfoldable pub append_block : List ℕ → List ℕ → List ℕ
unfolding ends_line
append_block [] block = block
append_block (c ∷ s) block =
    if ends_line (c ∷ s) then (c ∷ s) ++ newline ∷ block else (c ∷ s) ++ newline ∷ newline ∷ block

abbrev pub content_of : Option (List ℕ) → List ℕ
content_of none = []
content_of (some content) = content

-- UpsertBlock: the file afterwards.
unfoldable pub upsert_block : List ℕ → Option (List ℕ) → Option (List ℕ)
unfolding find_block append_block
upsert_block body file = elim (find_block (content_of file)) [
  | some (start, last) ↦
      some (take start (content_of file) ++ (block body ++ drop last (content_of file)))
  | none ↦ some (append_block (content_of file) (block body))
]

-- Whether a blank line stands before the index.
unfoldable pub blank_before : List ℕ → ℕ → Bool
blank_before content zero = false
blank_before content (suc zero) = false
blank_before content (suc (suc n)) = elim (get_elem? content (suc n)) [
  | none ↦ false
  | some c ↦ elim (get_elem? content n) [
    | none ↦ false
    | some d ↦ nat_eq c newline && nat_eq d newline
  ]
]

-- RemoveBlock: the file afterwards; one that would be empty is deleted.
unfoldable pub cut : List ℕ → ℕ → ℕ → List ℕ
unfolding blank_before
cut content start last =
    if blank_before content start
    then take (start - 1) content ++ drop last content
    else take start content ++ drop last content

unfoldable pub unless_empty : List ℕ → Option (List ℕ)
unless_empty [] = none
unless_empty (c ∷ s) = some (c ∷ s)

unfoldable pub remove_block : Option (List ℕ) → Option (List ℕ)
unfolding find_block cut unless_empty
remove_block none = none
remove_block (some content) = elim (find_block content) [
  | none ↦ some content
  | some (start, last) ↦ unless_empty (cut content start last)
]

-- HasBlock
unfoldable pub has_block : Option (List ℕ) → Bool
unfolding find_block
has_block none = false
has_block (some content) = elim (find_block content) [ none ↦ false | some r ↦ true ]

-- ===== src/Shell/Kept.antt =====
-- internal/shellrc/block.go: what a file is after UpsertBlock and RemoveBlock.
use clawdh.Base.{
  newline, bytes, starts_with, index_of, ℕ, zero, suc, ◌+◌, ◌-◌, ◌≡◌, refl, sym, subst, ap, ◌∙◌,
  inl, inr, length-append, List, [], ◌∷◌, ◌++◌, Option, some, true, Bool-cases, arith, length, take,
  drop, if◌then◌else◌,
}
use mathlib.Core.List.{append_assoc, append-nil}
use clawdh.Shell.Block.{
  begin_marker, end_marker, ends_line, trim_lines, block, find_block, append_block, content_of,
  upsert_block, blank_before, cut, unless_empty, remove_block, has_block,
}
use clawdh.Shell.Search.{
  Lacks, Before, begin-OneLine, index_of-line, shifted, drop-length, get_elem?-after,
  find_block_lem,
}

take-length : (xs ys : List ℕ) → take (length xs) (xs ++ ys) ≡ xs
take-length [] ys = refl
take-length (x ∷ xs) ys = ap (◌∷◌ x) (take-length xs ys)

drop-past : (xs ys zs : List ℕ) → drop (length xs + length ys) (xs ++ (ys ++ zs)) ≡ zs
drop-past xs ys zs =
    let flat : (xs ++ ys) ++ zs ≡ xs ++ (ys ++ zs) = append_assoc xs ys zs in
    ap (λ n. drop n (xs ++ (ys ++ zs))) (sym (length-append xs ys))
    ∙ ap (drop (length (xs ++ ys))) (sym flat)
    ∙ drop-length (xs ++ ys) zs

-- What UpsertBlock puts before a block that it appends, the content included.
lead : List ℕ → List ℕ
lead [] = []
lead (c ∷ s) =
    if ends_line (c ∷ s) then (c ∷ s) ++ newline ∷ [] else ((c ∷ s) ++ newline ∷ []) ++ newline ∷ []

append_block-lead : (content b : List ℕ) → append_block content b ≡ lead content ++ (b ++ [])
unfolding append_block lead
append_block-lead [] b = sym (append-nil b)
append_block-lead (c ∷ s) b = elim (Bool-cases (ends_line (c ∷ s))) [
  | inl ends ↦ rw (ends, append-nil) (sym (append_assoc (c ∷ s) (newline ∷ []) b))
  | inr open_line ↦
      rw (open_line, append-nil)
        (sym (
          append_assoc ((c ∷ s) ++ newline ∷ []) (newline ∷ []) b
          ∙ append_assoc (c ∷ s) (newline ∷ []) (newline ∷ b)))
]

begin-Lacks_nil : Lacks begin_marker []
unfolding begin_marker bytes index_of starts_with
begin-Lacks_nil = refl

lead-Before : (content : List ℕ) → Lacks begin_marker content → Before (lead content)
unfolding lead
lead-Before [] h = inl refl
lead-Before (c ∷ s) h = elim (Bool-cases (ends_line (c ∷ s))) [
  | inl ends ↦ rw ends (inr (c ∷ s, refl, h))
  | inr open_line ↦ rw open_line (
      inr (
        (c ∷ s) ++ newline ∷ [],
        refl,
        index_of-line begin_marker (c ∷ s) [] begin-OneLine h
            ∙ ap (shifted (suc (length (c ∷ s)))) begin-Lacks_nil,
      ))
]

-- A file that has the block keeps what stands before it and behind it.
pub upsert_block-inside :
    (before old body behind : List ℕ)
    → Before before
    → Lacks end_marker (trim_lines old)
    → upsert_block body (some (before ++ (block old ++ behind)))
      ≡ some (before ++ (block body ++ behind))
unfolding upsert_block
upsert_block-inside before old body behind h k =
    rw (upsert_block, find_block_lem before old behind h k, take-length, drop-past) refl

-- A file without the begin marker gets the block behind what it has.
upsert_block-first :
    (body : List ℕ) (file : Option (List ℕ))
    → Lacks begin_marker (content_of file)
    → upsert_block body file ≡ some (lead (content_of file) ++ (block body ++ []))
unfolding upsert_block find_block
upsert_block-first body file h =
    rw (upsert_block, find_block, h) (ap some (append_block-lead (content_of file) (block body)))

-- UpsertBlock replaces the block that it wrote before: the second one leaves the file as if the first had
-- not been there.
pub upsert_block-again :
    (old body : List ℕ) (file : Option (List ℕ))
    → Lacks begin_marker (content_of file)
    → Lacks end_marker (trim_lines old)
    → upsert_block body (upsert_block old file) ≡ upsert_block body file
upsert_block-again old body file h k =
    ap (upsert_block body) (upsert_block-first old file h)
    ∙ upsert_block-inside (lead (content_of file)) old body [] (lead-Before (content_of file) h) k
    ∙ sym (upsert_block-first body file h)

-- The content with its last line ended.
unfoldable pub ended : List ℕ → List ℕ
unfolding ends_line
ended [] = []
ended (c ∷ s) = if ends_line (c ∷ s) then c ∷ s else (c ∷ s) ++ newline ∷ []

ends_line-cases : (s : List ℕ) → ends_line s ≡ true → (q : List ℕ) × (s ≡ q ++ newline ∷ [])
unfolding ends_line
ends_line-cases [] h = cc
ends_line-cases (c ∷ []) h = ([], let e : c ≡ newline = ground arith in ap (λ x. x ∷ []) e)
ends_line-cases (c ∷ d ∷ s) h = let r = ends_line-cases (d ∷ s) h in (c ∷ r.0, ap (◌∷◌ c) r.1)

blank_before_lem :
    (q rest : List ℕ) (n : ℕ)
    → n ≡ length q + 2
    → blank_before (q ++ newline ∷ newline ∷ rest) n ≡ true
unfolding blank_before
blank_before_lem q rest zero h = ground arith
blank_before_lem q rest (suc zero) h = ground arith
blank_before_lem q rest (suc (suc n)) h =
    let later = get_elem?-after q (newline ∷ newline ∷ rest) (suc n) 1 (omega (arith, h)) in
    let earlier = get_elem?-after q (newline ∷ newline ∷ rest) n 0 (omega (arith, h)) in
    rw (blank_before, later, earlier) refl

-- The separating line goes with the block.
cut-blank :
    (q b : List ℕ)
    → cut
        (((q ++ newline ∷ []) ++ newline ∷ []) ++ (b ++ []))
        (length ((q ++ newline ∷ []) ++ newline ∷ []))
        (length ((q ++ newline ∷ []) ++ newline ∷ []) + length b)
      ≡ q ++ newline ∷ []
unfolding cut
cut-blank q b =
    let line = q ++ newline ∷ [] in
    let before = line ++ newline ∷ [] in
    let size : length before ≡ length q + 2 =
      omega (arith, length-append line (newline ∷ []), length-append q (newline ∷ [])) in
    let flat : before ++ (b ++ []) ≡ line ++ newline ∷ (b ++ []) =
      append_assoc line (newline ∷ []) (b ++ []) in
    let flatter : line ++ newline ∷ (b ++ []) ≡ q ++ newline ∷ newline ∷ (b ++ []) =
      append_assoc q (newline ∷ []) (newline ∷ (b ++ [])) in
    let blank : blank_before (before ++ (b ++ [])) (length before) ≡ true =
      ap (λ t. blank_before t (length before)) (flat ∙ flatter)
      ∙ blank_before_lem q (b ++ []) (length before) size in
    let one_less : length before - 1 ≡ length line =
      omega (arith, length-append line (newline ∷ [])) in
    let front : take (length before - 1) (before ++ (b ++ [])) ≡ line =
      ap (λ n. take n (before ++ (b ++ []))) one_less
      ∙ ap (take (length line)) flat
      ∙ take-length line (newline ∷ (b ++ [])) in
    rw (cut, blank, front, drop-past before b []) (append-nil line)

cut-lead :
    (content b : List ℕ)
    → cut (lead content ++ (b ++ [])) (length (lead content)) (length (lead content) + length b)
      ≡ ended content
unfolding cut lead ended
cut-lead [] b = drop-past [] b []
cut-lead (c ∷ s) b = elim (Bool-cases (ends_line (c ∷ s))) [
  | inl ends ↦ rw ends (
      let r = ends_line-cases (c ∷ s) ends in
      subst
        (λ e.
          cut ((e ++ newline ∷ []) ++ (b ++ [])) (length (e ++ newline ∷ []))
            (length (e ++ newline ∷ []) + length b)
          ≡ e)
        (sym r.1) (cut-blank r.0 b))
  | inr open_line ↦ rw open_line (cut-blank (c ∷ s) b)
]

-- RemoveBlock undoes UpsertBlock on a file without the begin marker, up to the end of its last line, and
-- deletes a file that was missing or empty; in between the file has the block.
pub remove_block-upsert_block :
    (body : List ℕ) (file : Option (List ℕ))
    → Lacks begin_marker (content_of file)
    → Lacks end_marker (trim_lines body)
    → (has_block (upsert_block body file) ≡ true)
      × (remove_block (upsert_block body file) ≡ unless_empty (ended (content_of file)))
unfolding remove_block has_block
remove_block-upsert_block body file h k =
    let here =
      find_block_lem (lead (content_of file)) body [] (lead-Before (content_of file) h) k in
    rw (upsert_block-first body file h) (
      rw (has_block, here) refl,
      rw (remove_block, here) (ap unless_empty (cut-lead (content_of file) (block body))),
    )

-- ===== src/Shell/Search.antt =====
-- internal/shellrc/block.go: where findBlock finds a block.
use clawdh.Base.{
  newline, bytes, starts_with, index_of, ℕ, zero, suc, ◌+◌, ◌≡◌, refl, sym, subst, ap, ◌∙◌, ◌⊎◌,
  inl, inr, length-append, List, [], ◌∷◌, ◌++◌, Option, none, some, Bool, true, false, Bool-cases,
  ◌&&◌, nat_eq, not, arith, length, drop, get_elem?, after_head, All,
}
use mathlib.Core.List.{append_assoc}
use clawdh.Shell.Block.{begin_marker, end_marker, trim_lines, block, past_newline, find_block}

-- A text in one line.
abbrev pub OneLine : List ℕ → Type 0
OneLine s = All (λ c. nat_eq newline c ≡ false) s

abbrev pub Lacks : List ℕ → List ℕ → Type 0
Lacks m s = index_of m s ≡ none

-- What lies behind the end of a line does not begin in it.
starts_with-line : (m s t : List ℕ) → OneLine m → starts_with (s ++ newline ∷ t) m ≡ starts_with s m
unfolding starts_with
starts_with-line [] [] t h = refl
starts_with-line [] (c ∷ s) t h = refl
starts_with-line (d ∷ m) [] t h = ap (λ b. b && starts_with t m) h.0
starts_with-line (d ∷ m) (c ∷ s) t h = ap (λ b. nat_eq c d && b) (starts_with-line m s t h.1)

-- So many steps further on.
abbrev pub shifted : ℕ → Option ℕ → Option ℕ
shifted n none = none
shifted n (some i) = some (n + i)

after_head-shifted : (n : ℕ) (o : Option ℕ) → after_head (shifted n o) ≡ shifted (suc n) o
after_head-shifted n none = refl
after_head-shifted n (some i) = ap some (omega arith)

after_head-none : (o : Option ℕ) → after_head o ≡ none → o ≡ none
after_head-none none e = refl
after_head-none (some i) e = cc

after_head_lem : (o : Option ℕ) → after_head o ≡ shifted 1 o
after_head_lem none = refl
after_head_lem (some i) = ap some (omega arith)

-- A line that does not have it only puts the place further on.
pub index_of-line :
    (m s t : List ℕ)
    → OneLine m
    → Lacks m s
    → index_of m (s ++ newline ∷ t) ≡ shifted (suc (length s)) (index_of m t)
unfolding index_of starts_with
index_of-line [] [] t h k = cc
index_of-line (d ∷ m) [] t h k =
    let elsewhere : starts_with (newline ∷ t) (d ∷ m) ≡ false =
      ap (λ b. b && starts_with t m) h.0 in
    rw (index_of, elsewhere) (after_head_lem (index_of (d ∷ m) t))
index_of-line m (c ∷ s) t h k = elim (Bool-cases (starts_with (c ∷ s) m)) [
  | inl found ↦ let e : Path (Option ℕ) (some 0) none = rw (index_of, found) at k in cc
  | inr not_here ↦
      let e : after_head (index_of m s) ≡ none = rw (index_of, not_here) at k in
      rw (index_of, starts_with-line m (c ∷ s) t h ∙ not_here)
        (ap after_head (index_of-line m s t h (after_head-none (index_of m s) e))
          ∙ after_head-shifted (suc (length s)) (index_of m t))
]

starts_with_self : (m t : List ℕ) → starts_with (m ++ t) m ≡ true
unfolding starts_with
starts_with_self [] t = refl
starts_with_self (d ∷ m) t = ground (arith, starts_with_self m t)

pub index_of-here : (m t : List ℕ) → index_of m (m ++ t) ≡ some 0
unfolding index_of starts_with
index_of-here [] [] = refl
index_of-here [] (c ∷ t) = refl
index_of-here (d ∷ m) t = rw (index_of, starts_with_self (d ∷ m) t) refl

one_line : List ℕ → Bool
one_line [] = true
one_line (c ∷ s) = not (nat_eq newline c) && one_line s

OneLine-of : (s : List ℕ) → one_line s ≡ true → OneLine s
unfolding one_line
OneLine-of [] h = tt
OneLine-of (c ∷ s) h = (ground arith, OneLine-of s (ground arith))

pub begin-OneLine : OneLine begin_marker
unfolding begin_marker bytes one_line
begin-OneLine = OneLine-of begin_marker refl

pub end-OneLine : OneLine end_marker
unfolding end_marker bytes one_line
end-OneLine = OneLine-of end_marker refl

end-Lacks : Lacks end_marker begin_marker
unfolding end_marker begin_marker bytes index_of starts_with
end-Lacks = refl

pub get_elem?-after :
    (xs ys : List ℕ) (k n : ℕ) → k ≡ length xs + n → get_elem? (xs ++ ys) k ≡ get_elem? ys n
get_elem?-after [] ys k n e = ap (get_elem? ys) (omega (arith, e))
get_elem?-after (x ∷ xs) ys zero n e = ground arith
get_elem?-after (x ∷ xs) ys (suc k) n e = get_elem?-after xs ys k n (omega (arith, e))

pub drop-length : (xs ys : List ℕ) → drop (length xs) (xs ++ ys) ≡ ys
drop-length [] ys = refl
drop-length (x ∷ xs) ys = drop-length xs ys

-- A marker, a body and a marker, each in lines of its own.
module _ (m tb e : List ℕ) where
  abbrev framed : List ℕ → List ℕ
  framed behind = m ++ newline ∷ (tb ++ newline ∷ (e ++ newline ∷ behind))

  framed-append : (behind : List ℕ) → framed [] ++ behind ≡ framed behind
  framed-append behind =
      append_assoc m (newline ∷ (tb ++ newline ∷ (e ++ newline ∷ []))) behind
      ∙ ap (λ t. m ++ newline ∷ t)
          (append_assoc tb (newline ∷ (e ++ newline ∷ [])) behind
            ∙ ap (λ t. tb ++ newline ∷ t) (append_assoc e (newline ∷ []) behind))

  length-framed : length (framed []) ≡ length m + length tb + length e + 3
  length-framed = omega (
    arith,
    length-append m (newline ∷ (tb ++ newline ∷ (e ++ newline ∷ []))),
    length-append tb (newline ∷ (e ++ newline ∷ [])),
    length-append e (newline ∷ []),
  )

  index_of-framed :
      (behind : List ℕ)
      → OneLine e
      → Lacks e m
      → Lacks e tb
      → index_of e (framed behind) ≡ some (length m + length tb + 2)
  index_of-framed behind h k l =
      index_of-line e m (tb ++ newline ∷ (e ++ newline ∷ behind)) h k
      ∙ ap (shifted (suc (length m))) (
          index_of-line e tb (e ++ newline ∷ behind) h l
          ∙ ap (shifted (suc (length tb))) (index_of-here e (newline ∷ behind)))
      ∙ ap some (omega arith)

  -- The byte behind the second marker.
  get_elem?-framed :
      (before behind : List ℕ) (k : ℕ)
      → k ≡ length before + (length m + length tb + 2) + length e
      → get_elem? (before ++ framed behind) k ≡ some newline
  get_elem?-framed before behind k h =
      let in_tb = length tb + suc (length e) in
      get_elem?-after before (framed behind) k (length m + suc in_tb) (omega (arith, h))
      ∙ get_elem?-after m (newline ∷ (tb ++ newline ∷ (e ++ newline ∷ behind)))
          (length m + suc in_tb) (suc in_tb) refl
      ∙ get_elem?-after tb (newline ∷ (e ++ newline ∷ behind)) in_tb (suc (length e)) refl
      ∙ get_elem?-after e (newline ∷ behind) (length e) zero (omega arith)

-- The lines before the block.
abbrev pub Before : List ℕ → Type 0
Before before = (before ≡ []) ⊎ ((p : List ℕ) × (before ≡ p ++ newline ∷ []) × Lacks begin_marker p)

index_of-Before :
    (m before rest : List ℕ)
    → OneLine m
    → (before ≡ []) ⊎ ((p : List ℕ) × (before ≡ p ++ newline ∷ []) × Lacks m p)
    → index_of m (before ++ (m ++ rest)) ≡ some (length before)
index_of-Before m before rest h (inl e) =
    subst (λ b. index_of m (b ++ (m ++ rest)) ≡ some (length b)) (sym e) (index_of-here m rest)
index_of-Before m before rest h (inr (p, e, k)) =
    subst (λ b. index_of m (b ++ (m ++ rest)) ≡ some (length b)) (sym e)
      (ap (index_of m) (append_assoc p (newline ∷ []) (m ++ rest))
        ∙ index_of-line m p (m ++ rest) h k
        ∙ ap (shifted (suc (length p))) (index_of-here m rest)
        ∙ ap some (omega (arith, length-append p (newline ∷ []))))

-- What findBlock reads, one thing after the other.
find_block_of :
    (content : List ℕ) (start i : ℕ)
    → index_of begin_marker content ≡ some start
    → index_of end_marker (drop start content) ≡ some i
    → get_elem? content (start + i + length end_marker) ≡ some newline
    → find_block content ≡ some (start, suc (start + i + length end_marker))
unfolding find_block past_newline
find_block_of content start i e f g = rw (find_block, e, f, past_newline, g) refl

pub find_block_lem :
    (before body behind : List ℕ)
    → Before before
    → Lacks end_marker (trim_lines body)
    → find_block (before ++ (block body ++ behind))
      ≡ some (length before, length before + length (block body))
unfolding block
find_block_lem before body behind h k =
    let start = length before in
    let i = length begin_marker + length (trim_lines body) + 2 in
    let tail = framed begin_marker (trim_lines body) end_marker behind in
    let shape : block body ++ behind ≡ tail =
      framed-append begin_marker (trim_lines body) end_marker behind in
    let opens : index_of begin_marker (before ++ tail) ≡ some start =
      index_of-Before begin_marker before
        (newline ∷ (trim_lines body ++ newline ∷ (end_marker ++ newline ∷ behind))) begin-OneLine
        h in
    let closes : index_of end_marker (drop start (before ++ tail)) ≡ some i =
      ap (index_of end_marker) (drop-length before tail)
      ∙ index_of-framed begin_marker (trim_lines body) end_marker behind end-OneLine end-Lacks k in
    ap (λ t. find_block (before ++ t)) shape
    ∙ find_block_of (before ++ tail) start i opens closes (
        get_elem?-framed begin_marker (trim_lines body) end_marker before behind
          (start + i + length end_marker) refl)
    ∙ ap (λ n. some (start, n))
        (omega (arith, length-framed begin_marker (trim_lines body) end_marker))

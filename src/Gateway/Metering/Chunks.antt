-- ===== src/Gateway/Metering/Chunks.antt =====
-- internal/gateway/metering.go: the chunks that a response arrives in.
use clawdh.Base.{
  ℕ, zero, suc, ◌≤◌, ◌≡◌, refl, sym, ap, ◌∙◌, inl, inr, String, List, [], ◌∷◌, ◌++◌, Option, Bool,
  true, false, Bool-cases, ◌&&◌, nat_eq, arith, length, newline,
}
use mathlib.Core.List.{append_assoc, append-nil}
use clawdh.Gateway.Metering.{
  RespUsage, Scanner, Found, lengthened, max_line, process_line, process_lines, break_lines, capped,
  feed,
}

-- No line has more bytes than max_line, where the line under way has room for so many more.
unfoldable pub short_lines : ℕ → List ℕ → Bool
short_lines room [] = true
short_lines zero (c ∷ s) = nat_eq c newline && short_lines max_line s
short_lines (suc room) (c ∷ s) = elim (nat_eq c newline) [
  | true ↦ short_lines max_line s
  | false ↦ short_lines room s
]

-- Two texts of lines, one behind the other.
beside : List (List ℕ) → List (List ℕ) × List ℕ → List (List ℕ) × List ℕ
beside ls r = (ls ++ r.0, r.1)

lengthened-beside :
    (c : ℕ) (ls : List (List ℕ)) (rest ys : List ℕ)
    → nat_eq c newline ≡ false
    → lengthened c
        ((beside ls (break_lines (rest ++ ys))).0)
        ((beside ls (break_lines (rest ++ ys))).1)
      ≡ beside ((lengthened c ls rest).0) (break_lines ((lengthened c ls rest).1 ++ ys))
unfolding lengthened beside break_lines
lengthened-beside c [] rest ys h = rw (break_lines, h) refl
lengthened-beside c (l ∷ ls) rest ys h = refl

-- Breaking a text goes on where breaking its front ended.
pub break_lines-append :
    (xs ys : List ℕ)
    → break_lines (xs ++ ys) ≡ (
      (break_lines xs).0 ++ (break_lines ((break_lines xs).1 ++ ys)).0,
      (break_lines ((break_lines xs).1 ++ ys)).1,
    )
unfolding break_lines beside
break_lines-append [] ys = refl
break_lines-append (c ∷ xs) ys = elim (Bool-cases (nat_eq c newline)) [
  | inl ends ↦ rw (break_lines, ends) (ap (λ r. ([] ∷ r.0, r.1)) (break_lines-append xs ys))
  | inr goes ↦
      rw (break_lines, goes)
        (ap (λ r. lengthened c r.0 r.1) (break_lines-append xs ys)
          ∙ lengthened-beside c ((break_lines xs).0) ((break_lines xs).1) ys goes)
]

lengthened-short :
    (c : ℕ) (ls : List (List ℕ)) (rest : List ℕ) (room : ℕ)
    → suc room ≤ max_line
    → (length rest ≤ max_line) × (ls ≡ [] → length rest ≤ room)
    → (length ((lengthened c ls rest).1) ≤ max_line)
      × ((lengthened c ls rest).0 ≡ [] → length ((lengthened c ls rest).1) ≤ suc room)
unfolding lengthened
lengthened-short c [] rest room h k =
    let short = k.1 refl in (omega (arith, h, short), λ e. omega (arith, short))
lengthened-short c (l ∷ ls) rest room h k =
    (k.0, λ e. let no_line : Path (List (List ℕ)) ((c ∷ l) ∷ ls) [] = e in cc)

capped-short : (line : List ℕ) → length line ≤ max_line → capped line ≡ line
unfolding capped
capped-short line h = ground arith

-- The chunks in one.
unfoldable pub joined : List (List ℕ) → List ℕ
joined [] = []
joined (p ∷ ps) = p ++ joined ps

-- What is left of the front of a text with short lines is short.
rest-short :
    (xs ys : List ℕ) (room : ℕ)
    → room ≤ max_line
    → short_lines room (xs ++ ys) ≡ true
    → (length ((break_lines xs).1) ≤ max_line)
      × ((break_lines xs).0 ≡ [] → length ((break_lines xs).1) ≤ room)
unfolding short_lines break_lines lengthened
rest-short [] ys room h k = (omega arith, λ e. omega arith)
rest-short (c ∷ xs) ys zero h k = elim (Bool-cases (nat_eq c newline)) [
  | inl ends ↦
      rw (break_lines, ends) ((rest-short xs ys max_line (omega arith) (ground arith)).0, λ e. cc)
  | inr goes ↦ ground arith
]
rest-short (c ∷ xs) ys (suc room) h k = elim (Bool-cases (nat_eq c newline)) [
  | inl ends ↦
      rw (break_lines, ends)
        ((rest-short xs ys max_line (omega arith) (rw (short_lines, ends) at k)).0, λ e. cc)
  | inr goes ↦
      rw (break_lines, goes)
        (lengthened-short c ((break_lines xs).0) ((break_lines xs).1) room h
          (rest-short xs ys room (omega (arith, h)) (rw (short_lines, goes) at k)))
]

module _ (read_start : List ℕ → Option (String × RespUsage))
    (read_delta : List ℕ → Option RespUsage)
    (read_body : List ℕ → Option (String × RespUsage)) where
  process_lines-append :
      (ls ms : List (List ℕ)) (f : Found)
      → process_lines read_start read_delta read_body (ls ++ ms) f
        ≡ process_lines read_start read_delta read_body ms
            (process_lines read_start read_delta read_body ls f)
  unfolding process_lines
  process_lines-append [] ms f = refl
  process_lines-append (l ∷ ls) ms f =
      process_lines-append ls ms (process_line read_start read_delta read_body l f)

  -- What a scanner is after some lines and the start of one.
  after : List (List ℕ) × List ℕ → Found → Scanner
  after r f = record {
    line = capped r.1;
    found = process_lines read_start read_delta read_body r.0 f;
  }

  -- Two chunks are read as one.
  feed-feed :
      (p q : List ℕ) (s : Scanner)
      → length ((break_lines (s.line ++ p)).1) ≤ max_line
      → feed read_start read_delta read_body q (feed read_start read_delta read_body p s)
        ≡ feed read_start read_delta read_body (p ++ q) s
  unfolding feed after
  feed-feed p q s h =
      let first = break_lines (s.line ++ p) in
      let then_found = process_lines read_start read_delta read_body first.0 s.found in
      let second = break_lines (first.1 ++ q) in
      ap (λ l. after (break_lines (l ++ q)) then_found) (capped-short first.1 h)
      ∙ ap (λ f. record { line = capped second.1; found = f })
          (sym (process_lines-append first.0 second.0 s.found))
      ∙ ap (λ r. after r s.found)
          (sym (break_lines-append (s.line ++ p) q) ∙ ap break_lines (append_assoc s.line p q))

  -- The chunks that are not empty, in order.
  unfoldable pub absorb : List (List ℕ) → Scanner → Scanner
  absorb [] s = s
  absorb ([] ∷ ps) s = absorb ps s
  absorb ((c ∷ p) ∷ ps) s = absorb ps (feed read_start read_delta read_body (c ∷ p) s)

  pub absorb-feed :
      (ps : List (List ℕ)) (p : List ℕ) (s : Scanner)
      → short_lines max_line (s.line ++ (p ++ joined ps)) ≡ true
      → absorb ps (feed read_start read_delta read_body p s)
        ≡ feed read_start read_delta read_body (p ++ joined ps) s
  unfolding absorb joined
  absorb-feed [] p s h = ap (λ t. feed read_start read_delta read_body t s) (sym (append-nil p))
  absorb-feed ([] ∷ ps) p s h = absorb-feed ps p s h
  absorb-feed ((c ∷ q) ∷ ps) p s h =
      let flat : (p ++ (c ∷ q)) ++ joined ps ≡ p ++ ((c ∷ q) ++ joined ps) =
        append_assoc p (c ∷ q) (joined ps) in
      let short : short_lines max_line ((s.line ++ p) ++ ((c ∷ q) ++ joined ps)) ≡ true =
        ap (short_lines max_line) (append_assoc s.line p ((c ∷ q) ++ joined ps)) ∙ h in
      ap (absorb ps) (
        feed-feed p (c ∷ q) s
          (rest-short (s.line ++ p) ((c ∷ q) ++ joined ps) max_line (omega arith) short).0)
      ∙ absorb-feed ps (p ++ (c ∷ q)) s (ap (λ t. short_lines max_line (s.line ++ t)) flat ∙ h)
      ∙ ap (λ t. feed read_start read_delta read_body t s) flat

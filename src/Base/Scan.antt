-- ===== src/Base/Scan.antt =====
-- Go's filter in place, `out := xs[:0]; for _, x := range xs { if keep(x) { out = append(out, x) } }`:
-- the kept elements are written over the front of the array that is still being read, and what
-- stood behind them stays. A pointer taken into the array before the loop reads the new contents.
use mathlib.Core.List.{append_assoc, append-nil}
use clawdh.Base.Tests.{if◌then◌else◌, Bool-cases}
use clawdh.Base.Lists.{length, get_elem?, set, take, drop, filter, length-append}
use Prim.Native.Nat.{ℕ, zero, suc, ◌+◌}
use mathlib.Core.Path.{◌≡◌, refl, sym, ap, ap₂, ◌∙◌}
use mathlib.Core.Bool.{Bool, true, false}
use mathlib.Core.Logic.{inl, inr}
use mathlib.Core.List.{List, [], ◌∷◌, ◌++◌}
use mathlib.Core.Option.{none, some}
use native.Mathlib.Omega.{arith}

-- The array's slots, and how many of them, from the front, the slice `out` has.
pub record Compacted {ℓ} (A : Type ℓ) : Type ℓ where
  pub slots : List A
  pub kept : ℕ

module _ {ℓ} {A : Type ℓ} (keep : A → Bool) where
  -- `rounds` iterations from index `i`, with `w` elements kept so far.
  compact_loop : ℕ → ℕ → ℕ → List A → Compacted A
  compact_loop zero i w slots = record { slots = slots; kept = w }
  compact_loop (suc rounds) i w slots = elim (get_elem? slots i) [
    | none ↦ record { slots = slots; kept = w }
    | some x ↦
        compact_loop rounds (i + 1) (if keep x then w + 1 else w)
          (if keep x then set slots w x else slots)
  ]

  unfoldable pub compact : List A → Compacted A
  unfolding compact_loop
  compact xs = compact_loop (length xs) 0 0 xs

module _ {ℓ} {A : Type ℓ} where
  -- The stale slots after one more write before them.
  shift : List A → A → List A
  shift [] x = []
  shift (j ∷ js) x = js ++ x ∷ []

  length-shift : (junk : List A) (x : A) → length (shift junk x) ≡ length junk
  unfolding shift
  length-shift [] x = refl
  length-shift (j ∷ js) x = omega (arith, length-append js (x ∷ []))

  set-shift :
      (kept junk rest : List A) (x : A)
      → set (kept ++ (junk ++ x ∷ rest)) (length kept) x ≡ kept ++ x ∷ (shift junk x ++ rest)
  unfolding shift
  set-shift [] [] rest x = refl
  set-shift [] (j ∷ js) rest x = ap (◌∷◌ x) (sym (append_assoc js (x ∷ []) rest))
  set-shift (k ∷ kept) junk rest x = ap (◌∷◌ k) (set-shift kept junk rest x)

  get_elem?-append : (xs ys : List A) (y : A) → get_elem? (xs ++ y ∷ ys) (length xs) ≡ some y
  get_elem?-append [] ys y = refl
  get_elem?-append (x ∷ xs) ys y = get_elem?-append xs ys y

  take-append : (xs ys : List A) → take (length xs) (xs ++ ys) ≡ xs
  take-append [] ys = refl
  take-append (x ∷ xs) ys = ap (◌∷◌ x) (take-append xs ys)

  drop-shift :
      (n : ℕ) (junk rest : List A) (x : A)
      → drop (suc n) (junk ++ x ∷ rest) ≡ drop n (shift junk x ++ rest)
  unfolding shift
  drop-shift n [] rest x = refl
  drop-shift n (j ∷ js) rest x = rw append_assoc

module _ {ℓ} {A : Type ℓ} where
  read_next :
      (kept junk rest : List A) (x : A) (i : ℕ)
      → i ≡ length kept + length junk
      → get_elem? (kept ++ (junk ++ x ∷ rest)) i ≡ some x
  read_next [] [] rest x zero e = refl
  read_next [] [] rest x (suc i) e = absurd (omega arith)
  read_next [] (j ∷ js) rest x zero e = absurd (omega arith)
  read_next [] (j ∷ js) rest x (suc i) e = read_next [] js rest x i (omega arith)
  read_next (k ∷ kept) junk rest x zero e = absurd (omega arith)
  read_next (k ∷ kept) junk rest x (suc i) e = read_next kept junk rest x i (omega arith)

  written :
      (x : A) (rest kept junk : List A) {w : ℕ} {slots : List A}
      → w ≡ length kept
      → slots ≡ kept ++ (junk ++ x ∷ rest)
      → set slots w x ≡ (kept ++ x ∷ []) ++ (shift junk x ++ rest)
  written x rest kept junk f g =
      ap₂ (λ s n. set s n x) g f
      ∙ (set-shift kept junk rest x ∙ sym (append_assoc kept (x ∷ []) (shift junk x ++ rest)))

  read :
      (x : A) (rest kept junk : List A) {i : ℕ} {slots : List A}
      → i ≡ length kept + length junk
      → slots ≡ kept ++ (junk ++ x ∷ rest)
      → get_elem? slots i ≡ some x
  read x rest kept junk {i} e g = ap (λ s. get_elem? s i) g ∙ read_next kept junk rest x i e

  -- What the loop leaves, when it has `kept` written, `junk` stale and `rest` still to read.
  abbrev final : (A → Bool) → List A → List A → List A → Compacted A
  final keep kept junk rest = record {
    slots = kept ++ (filter keep rest ++ drop (length (filter keep rest)) (junk ++ rest));
    kept = length kept + length (filter keep rest);
  }

module _ {ℓ} {A : Type ℓ} (keep : A → Bool) where
  final-keep :
      (x : A) (rest kept junk : List A)
      → keep x ≡ true
      → final keep (kept ++ x ∷ []) (shift junk x) rest ≡ final keep kept junk (x ∷ rest)
  final-keep x rest kept junk hit =
      rw (hit, drop-shift (length (filter keep rest)) junk rest x, append_assoc)
        (ap (λ n. record { slots = kept ++ (x ∷ [] ++ back); kept = n })
          (omega (arith, length-append kept (x ∷ []))))
    where
      back : List A
      back = filter keep rest ++ drop (length (filter keep rest)) (shift junk x ++ rest)

  final_skip :
      (x : A) (rest kept junk : List A)
      → keep x ≡ false
      → final keep kept (junk ++ x ∷ []) rest ≡ final keep kept junk (x ∷ rest)
  final_skip x rest kept junk miss = rw (miss, append_assoc)

  loop_keep :
      (n i w : ℕ) (slots : List A) (x : A)
      → get_elem? slots i ≡ some x
      → keep x ≡ true
      → compact_loop keep (suc n) i w slots ≡ compact_loop keep n (i + 1) (w + 1) (set slots w x)
  unfolding compact_loop
  loop_keep n i w slots x e hit = rw (e, compact_loop) (rw hit)

  loop_skip :
      (n i w : ℕ) (slots : List A) (x : A)
      → get_elem? slots i ≡ some x
      → keep x ≡ false
      → compact_loop keep (suc n) i w slots ≡ compact_loop keep n (i + 1) w slots
  unfolding compact_loop
  loop_skip n i w slots x e miss = rw (e, compact_loop) (rw miss)

  compact_loop_lem :
      (rest kept junk : List A) (i w : ℕ) (slots : List A)
      → i ≡ length kept + length junk
      → w ≡ length kept
      → slots ≡ kept ++ (junk ++ rest)
      → compact_loop keep (length rest) i w slots ≡ final keep kept junk rest
  unfolding compact_loop
  compact_loop_lem [] kept junk i w slots e f g = ground (arith, append-nil junk)
  compact_loop_lem (x ∷ rest) kept junk i w slots e f g = elim (Bool-cases (keep x)) [
    | inl hit ↦
        loop_keep (length rest) i w slots x (read x rest kept junk e g) hit
        ∙ compact_loop_lem rest (kept ++ x ∷ []) (shift junk x) (i + 1) (w + 1) (set slots w x)
            (omega (arith, length-append kept (x ∷ []), length-shift junk x))
            (omega (arith, length-append kept (x ∷ []))) (written x rest kept junk f g)
        ∙ final-keep x rest kept junk hit
    | inr miss ↦
        loop_skip (length rest) i w slots x (read x rest kept junk e g) miss
        ∙ compact_loop_lem rest kept (junk ++ x ∷ []) (i + 1) w slots
            (omega (arith, length-append junk (x ∷ []))) f
            (g ∙ ap (◌++◌ kept) (sym (append_assoc junk (x ∷ []) rest)))
        ∙ final_skip x rest kept junk miss
  ]

  -- The loop keeps the elements that pass, in order, and behind them leaves the old slots.
  pub compact_lem :
      (xs : List A)
      → compact keep xs ≡ record {
        slots = filter keep xs ++ drop (length (filter keep xs)) xs;
        kept = length (filter keep xs);
      }
  unfolding compact
  compact_lem xs =
      compact_loop_lem xs [] [] 0 0 xs refl refl refl
      ∙ ap (λ n. record { slots = filter keep xs ++ drop (length (filter keep xs)) xs; kept = n })
          (omega arith)

  -- The slice that the loop builds is the filtered list.
  pub take-compact :
      (xs : List A) → take (compact keep xs).kept (compact keep xs).slots ≡ filter keep xs
  take-compact xs = rw compact_lem (take-append (filter keep xs) _)

-- ===== src/Base/Searches.antt =====
-- Laws of the searches and filters of Lists, and of writes to a slot.
use Prim.Native.Nat.{ℕ, zero, suc}
use mathlib.Core.Path.{◌≡◌, refl, ap, subst, sym}
use mathlib.Core.Bool.{Bool, true, false}
use mathlib.Core.List.{List, [], ◌∷◌, ◌++◌}
use mathlib.Core.Option.{none, some}
use native.Mathlib.Omega.{arith}
use mathlib.Core.Logic.{◌⊎◌, inl, inr}
use clawdh.Base.Tests.{nat_eq, if◌then◌else◌, Bool-cases}
use clawdh.Base.Lists.{get_elem?, set, filter, find?, any, index?, All}

module _ {ℓ} {A : Type ℓ} where
  pub find?-passes : (p : A → Bool) (xs : List A) {a : A} → find? p xs ≡ some a → p a ≡ true
  find?-passes p [] e = cc
  find?-passes p (x ∷ xs) {a} e = elim (Bool-cases (p x)) [
    | inl hit ↦ let same : x ≡ a = ground arith in subst (λ y. p y ≡ true) same hit
    | inr miss ↦ find?-passes p xs (rw miss at e)
  ]

  -- A search among what a filter kept, where the filter drops nothing that the search would take.
  pub find?-filter :
      (p keep : A → Bool)
      → ((x : A) → p x ≡ true → keep x ≡ true)
      → (xs : List A) → find? p (filter keep xs) ≡ find? p xs
  find?-filter p keep h [] = refl
  find?-filter p keep h (x ∷ xs) = ground (arith, h x, find?-filter p keep h xs)

  pub any_of_find? : (p : A → Bool) (xs : List A) {a : A} → find? p xs ≡ some a → any p xs ≡ true
  any_of_find? p [] e = cc
  any_of_find? p (x ∷ xs) {a} e = ground (arith, any_of_find? p xs {a = a})

  pub any-append_left : (p : A → Bool) (xs ys : List A) → any p xs ≡ true → any p (xs ++ ys) ≡ true
  any-append_left p [] ys h = cc
  any-append_left p (x ∷ xs) ys h = ground (arith, any-append_left p xs ys)

  pub any-append_last :
      (p : A → Bool) (xs : List A) (y : A) → p y ≡ true → any p (xs ++ y ∷ []) ≡ true
  any-append_last p [] y h = ground arith
  any-append_last p (x ∷ xs) y h = ground (arith, any-append_last p xs y h)

  pub any-filter :
      (p keep : A → Bool)
      → ((x : A) → p x ≡ true → keep x ≡ true)
      → (xs : List A) → any p (filter keep xs) ≡ any p xs
  any-filter p keep h [] = refl
  any-filter p keep h (x ∷ xs) = ground (arith, h x, any-filter p keep h xs)

  pub any-set :
      (p : A → Bool) (xs : List A) (i : ℕ) (a v : A)
      → get_elem? xs i ≡ some a
      → p v ≡ p a
      → any p (set xs i v) ≡ any p xs
  any-set p [] i a v e h = refl
  any-set p (x ∷ xs) zero a v e h = ground arith
  any-set p (x ∷ xs) (suc i) a v e h = ground (arith, any-set p xs i a v e h)

  pub All_filter_with {κ μ} :
      (P : A → Type κ) (Q : A → Type μ) (p : A → Bool)
      → ((x : A) → P x → p x ≡ true → Q x)
      → (xs : List A) → All P xs
      → All Q (filter p xs)
  All_filter_with P Q p f [] h = tt
  All_filter_with P Q p f (x ∷ xs) h = elim (Bool-cases (p x)) [
    | inl hit ↦ rw hit (f x h.0 hit, All_filter_with P Q p f xs h.1)
    | inr miss ↦ rw miss (All_filter_with P Q p f xs h.1)
  ]

  pub any_of_get_elem? :
      (p : A → Bool) (xs : List A) (i : ℕ) {a : A}
      → get_elem? xs i ≡ some a
      → p a ≡ true
      → any p xs ≡ true
  any_of_get_elem? p [] i e h = cc
  any_of_get_elem? p (x ∷ xs) zero {a} e h = ground arith
  any_of_get_elem? p (x ∷ xs) (suc i) {a} e h = ground (arith, any_of_get_elem? p xs i {a = a} e h)

  -- The first that passes is still the first among what is kept, if it is kept.
  pub find?-filter_kept :
      (p keep : A → Bool) (xs : List A) {a : A}
      → find? p xs ≡ some a
      → keep a ≡ true
      → find? p (filter keep xs) ≡ some a
  find?-filter_kept p keep [] e h = cc
  find?-filter_kept p keep (x ∷ xs) {a} e h = elim (Bool-cases (p x)) [
    | inl hit ↦
        let same : x ≡ a = ground arith in
        let kept : keep x ≡ true = subst (λ y. keep y ≡ true) (sym same) h in
        rw (kept, hit) (ap some same)
    | inr miss ↦ let ih = find?-filter_kept p keep xs {a = a} (rw miss at e) h in ground (arith, ih)
  ]

  pub find?-append_last :
      (p : A → Bool) (xs : List A) (y : A)
      → find? p xs ≡ none
      → find? p (xs ++ y ∷ []) ≡ (if p y then some y else none)
  find?-append_last p [] y h = refl
  find?-append_last p (x ∷ xs) y h = ground (arith, find?-append_last p xs y)

  pub find?-append_left :
      (p : A → Bool) (xs ys : List A) {a : A} → find? p xs ≡ some a → find? p (xs ++ ys) ≡ some a
  find?-append_left p [] ys h = cc
  find?-append_left p (x ∷ xs) ys {a} h = elim (Bool-cases (p x)) [
    | inl hit ↦ rw hit (rw hit at h)
    | inr miss ↦ rw miss (find?-append_left p xs ys (rw miss at h))
  ]

  pub find?-filter-none :
      (p keep : A → Bool) (xs : List A) → find? p xs ≡ none → find? p (filter keep xs) ≡ none
  find?-filter-none p keep [] h = refl
  find?-filter-none p keep (x ∷ xs) h = ground (arith, find?-filter-none p keep xs)

  pub get_elem?-set_self :
      (xs : List A) (i : ℕ) (v : A) {a : A}
      → get_elem? xs i ≡ some a
      → get_elem? (set xs i v) i ≡ some v
  get_elem?-set_self [] i v e = cc
  get_elem?-set_self (x ∷ xs) zero v e = refl
  get_elem?-set_self (x ∷ xs) (suc i) v {a} e = get_elem?-set_self xs i v {a = a} e

  -- A slot after a write at `i`: as it was, or the one that was written.
  pub get_elem?-set_cases :
      (xs : List A) (i j : ℕ) (v b : A) {a : A}
      → get_elem? xs i ≡ some b
      → get_elem? xs j ≡ some a
      → (get_elem? (set xs i v) j ≡ some a) ⊎ ((get_elem? (set xs i v) j ≡ some v) × (a ≡ b))
  get_elem?-set_cases [] i j v b e f = cc
  get_elem?-set_cases (x ∷ xs) zero zero v b {a} e f = inr (refl, ground arith)
  get_elem?-set_cases (x ∷ xs) zero (suc j) v b e f = inl f
  get_elem?-set_cases (x ∷ xs) (suc i) zero v b e f = inl f
  get_elem?-set_cases (x ∷ xs) (suc i) (suc j) v b {a} e f =
      get_elem?-set_cases xs i j v b {a = a} e f

  pub get_elem?-set_other :
      (xs : List A) (i j : ℕ) (v : A)
      → nat_eq i j ≡ false
      → get_elem? (set xs i v) j ≡ get_elem? xs j
  get_elem?-set_other [] i j v h = refl
  get_elem?-set_other (x ∷ xs) zero zero v h = ground arith
  get_elem?-set_other (x ∷ xs) zero (suc j) v h = refl
  get_elem?-set_other (x ∷ xs) (suc i) zero v h = refl
  get_elem?-set_other (x ∷ xs) (suc i) (suc j) v h =
      get_elem?-set_other xs i j v (ground (arith, h))

  pub get_elem?-append_left :
      (xs ys : List A) (i : ℕ) {a : A} → get_elem? xs i ≡ some a → get_elem? (xs ++ ys) i ≡ some a
  get_elem?-append_left [] ys i e = cc
  get_elem?-append_left (x ∷ xs) ys zero e = e
  get_elem?-append_left (x ∷ xs) ys (suc i) {a} e = get_elem?-append_left xs ys i {a = a} e

  -- The index found by a test that the write does not change.
  pub index?-set :
      (p : A → Bool) (xs : List A) (i : ℕ) (v : A) {a : A}
      → get_elem? xs i ≡ some a
      → p v ≡ p a
      → index? p (set xs i v) ≡ index? p xs
  index?-set p [] i v e h = refl
  index?-set p (x ∷ xs) zero v {a} e h = ground arith
  index?-set p (x ∷ xs) (suc i) v {a} e h = ground (arith, index?-set p xs i v {a = a} e h)

  index?-suc :
      (p : A → Bool) (x : A) (xs : List A) (i : ℕ)
      → index? p (x ∷ xs) ≡ some (suc i)
      → index? p xs ≡ some i
  index?-suc p x xs i e = ground arith

  pub index?-passes :
      (p : A → Bool) (xs : List A) (i : ℕ) {a : A}
      → index? p xs ≡ some i
      → get_elem? xs i ≡ some a
      → p a ≡ true
  index?-passes p [] i e f = cc
  index?-passes p (x ∷ xs) zero e f = ground arith
  index?-passes p (x ∷ xs) (suc i) {a} e f = index?-passes p xs i {a = a} (index?-suc p x xs i e) f

  -- What one search finds, another search that finds nothing does not take.
  pub find?-none_fails :
      (p q : A → Bool) (xs : List A) {a : A} → find? p xs ≡ none → find? q xs ≡ some a → p a ≡ false
  find?-none_fails p q [] e f = cc
  find?-none_fails p q (x ∷ xs) {a} e f = elim (Bool-cases (q x)) [
    | inl hit ↦ ground arith
    | inr miss ↦ find?-none_fails p q xs {a = a} (ground arith) (ground arith)
  ]

-- ===== src/Local/Free.antt =====
-- internal/accounts/manager.go: the search for a name that is not taken ends with one.
use clawdh.Base.{
  ℕ, zero, suc, ◌+◌, ◌≤◌, ◌<◌, ◌≡◌, refl, sym, ap, ◌∙◌, inl, inr, String, Bool, true, false, not,
  ◌==◌, ◌<>◌, List, [], ◌∷◌, arith, length, nat_eq, filter, length-filter-le, any, any-filter,
  Bool-cases, eq_iff, itoa, without_prefix, read_on, read_on-itoa, without_prefix-append,
}
use clawdh.Local.Names.{numbered, first_free}

-- Different numbers give different names.
numbered-injective : (base : String) (i j : ℕ) → numbered base i ≡ numbered base j → i ≡ j
unfolding numbered
numbered-injective base i j h = sym (read_on-itoa i) ∙ ap (read_on 0) (tail base h) ∙ read_on-itoa j
  where
    cut : (p : String) → p <> ("-" <> itoa i) ≡ p <> ("-" <> itoa j) → "-" <> itoa i ≡ "-" <> itoa j
    cut p e =
        sym (without_prefix-append p ("-" <> itoa i))
        ∙ ap (λ s. without_prefix s p) e
        ∙ without_prefix-append p ("-" <> itoa j)

    tail : (p : String) → p <> ("-" <> itoa i) ≡ p <> ("-" <> itoa j) → itoa i ≡ itoa j
    tail p e =
        sym (without_prefix-append "-" (itoa i))
        ∙ ap (λ s. without_prefix s "-") (cut p e)
        ∙ without_prefix-append "-" (itoa j)

-- The names in a list.
abbrev pub names_it : List String → String → Bool
names_it names c = any (λ x. x == c) names

-- A list that has a name is shorter without it.
length-filter-lt :
    (c : String) (names : List String)
    → names_it names c ≡ true
    → length (filter (λ x. not (x == c)) names) < length names
length-filter-lt c [] h = ground arith
length-filter-lt c (x ∷ names) h = elim (Bool-cases (x == c)) [
  | inl hit ↦ rw hit (omega (arith, length-filter-le (λ y. not (y == c)) names))
  | inr miss ↦ rw miss (omega (arith, length-filter-lt c names (rw miss at h)))
]

-- Of as many names as the list has and one more, one is not in the list.
free_number :
    (base : String) (n : ℕ) (names : List String) (i : ℕ)
    → length names ≤ n
    → (j : ℕ) × (i ≤ j) × (j ≤ i + n) × (names_it names (numbered base j) ≡ false)
free_number base zero [] i h = (i, omega arith, omega arith, refl)
free_number base zero (x ∷ names) i h = ground arith
free_number base (suc n) names i h = elim (Bool-cases (names_it names (numbered base i))) [
  | inr free ↦ (i, omega arith, omega arith, free)
  | inl taken ↦
      let rest = filter (λ x. not (x == numbered base i)) names in
      let shorter : length rest ≤ n =
        omega (arith, h, length-filter-lt (numbered base i) names taken) in
      let found = free_number base n rest (suc i) shorter in
      (
        found.0,
        omega (arith, found.1),
        omega (arith, found.2),
        sym (same found.0 found.1) ∙ found.3,
      )
]
  where
    apart :
        (j : ℕ)
        → suc i ≤ j
        → (x : String) → (x == numbered base j) ≡ true
        → not (x == numbered base i) ≡ true
    apart j lt x e =
        ground (
          arith,
          eq_iff x (numbered base j),
          eq_iff x (numbered base i),
          numbered-injective base i j,
        )

    same :
        (j : ℕ)
        → suc i ≤ j
        → names_it (filter (λ x. not (x == numbered base i)) names) (numbered base j)
          ≡ names_it names (numbered base j)
    same j lt =
        any-filter (λ x. x == numbered base j) (λ x. not (x == numbered base i)) (apart j lt) names

first_free_at :
    (taken : String → Bool) (base : String) (fuel i : ℕ) (candidate : String)
    → taken candidate ≡ false
    → first_free taken base fuel i candidate ≡ candidate
unfolding first_free
first_free_at taken base zero i candidate e = refl
first_free_at taken base (suc fuel) i candidate e = rw (first_free, e) refl

-- The search meets a free name that is within its steps.
first_free_within :
    (taken : String → Bool) (base : String) (fuel i j : ℕ) (candidate : String)
    → i ≤ j
    → j < i + fuel
    → taken (numbered base j) ≡ false
    → taken (first_free taken base fuel i candidate) ≡ false
unfolding first_free
first_free_within taken base zero i j candidate h k e = ground arith
first_free_within taken base (suc fuel) i j candidate h k e = elim (Bool-cases (taken candidate)) [
  | inr free ↦ rw (first_free, free) free
  | inl hit ↦
      rw (first_free, hit)
        (elim (Bool-cases (nat_eq i j)) [
          | inl same ↦
              let here : i ≡ j = ground arith in
              let free : taken (numbered base i) ≡ false =
                ap (λ k. taken (numbered base k)) here ∙ e in
              ap taken (first_free_at taken base fuel (suc i) (numbered base i) free) ∙ free
          | inr other ↦
              first_free_within taken base fuel (suc i) j (numbered base i) (ground arith)
                (ground arith) e
        ])
]

-- A search in which every taken name is one of a list, with a step for each of them and one more, ends
-- with a name that is free.
pub first_free_lem :
    (taken : String → Bool) (names : List String) (base : String) (fuel i : ℕ) (candidate : String)
    → ((c : String) → taken c ≡ true → names_it names c ≡ true)
    → length names < fuel
    → taken (first_free taken base fuel i candidate) ≡ false
first_free_lem taken names base fuel i candidate known enough =
    let found = free_number base (length names) names i (omega arith) in
    first_free_within taken base fuel i found.0 candidate found.1 (omega (arith, found.2, enough))
      (ground (arith, known (numbered base found.0), found.3))

-- ===== src/Local/Distinct.antt =====
-- internal/accounts/manager.go: the names of the accounts under its operations.
use clawdh.Base.{
  ℕ, zero, suc, ◌+◌, ◌*◌, ◌≡◌, ◌≢◌, ◌⊎◌, refl, sym, ap, ◌∙◌, inl, inr, String, true, false, List,
  [], ◌∷◌, arith, eq_iff, length, Option, none, some, All,
}
use mathlib.Core.Option.{some-injective}
use clawdh.Local.Names.{numbered}
use clawdh.Local.Free.{names_it, first_free_lem}
use clawdh.Local.Manager.{
  Account, slug_taken, alias_taken, unique_slug, unique_alias, Made, made, exists, failed,
  provision,
}

-- Two accounts share no slug, no id and no alias, and the slug of neither is the id of the other.
abbrev pub Apart : Account → Account → Type 0
Apart a b =
    (a.slug ≢ b.slug) × (a.id ≢ b.id) × (a.slug ≢ b.id) × (a.id ≢ b.slug) × (a.alias ≢ b.alias)

abbrev slugs : List Account → List String
slugs [] = []
slugs (a ∷ list) = a.slug ∷ a.id ∷ slugs list

abbrev aliases : List Account → List String
aliases [] = []
aliases (a ∷ list) = a.alias ∷ aliases list

length-slugs : (list : List Account) → length (slugs list) ≡ 2 * length list
length-slugs [] = omega arith
length-slugs (a ∷ list) = omega (arith, length-slugs list)

length-aliases : (list : List Account) → length (aliases list) ≡ length list
length-aliases [] = omega arith
length-aliases (a ∷ list) = omega (arith, length-aliases list)

slug_taken-slugs :
    (c : String) (list : List Account) → slug_taken c list ≡ true → names_it (slugs list) c ≡ true
unfolding slug_taken
slug_taken-slugs c [] h = h
slug_taken-slugs c (a ∷ list) h = ground (arith, slug_taken-slugs c list)

alias_taken-aliases :
    (c : String) (list : List Account)
    → alias_taken c list ≡ true
    → names_it (aliases list) c ≡ true
unfolding alias_taken
alias_taken-aliases c [] h = h
alias_taken-aliases c (a ∷ list) h = ground (arith, alias_taken-aliases c list)

-- The loops end, and with a name that no account has.
pub unique_slug-free :
    (base : String) (list : List Account) → slug_taken (unique_slug base list) list ≡ false
unfolding unique_slug
unique_slug-free base list =
    first_free_lem (λ c. slug_taken c list) (slugs list) base (suc (2 * length list)) 2 base
      (λ c h. slug_taken-slugs c list h) (omega (arith, length-slugs list))

pub unique_alias-free :
    (base : String) (list : List Account) → alias_taken (unique_alias base list) list ≡ false
unfolding unique_alias
unique_alias-free base list =
    first_free_lem (λ c. alias_taken c list) (aliases list) base (suc (length list)) 2 base
      (λ c h. alias_taken-aliases c list h) (omega (arith, length-aliases list))

-- What a name that is not taken says of each account.
pub not-slug_taken :
    (c : String) (list : List Account)
    → slug_taken c list ≡ false
    → All (λ a. (a.slug ≢ c) × (a.id ≢ c)) list
unfolding slug_taken
not-slug_taken c [] h = tt
not-slug_taken c (a ∷ list) h = (
  (ground (arith, eq_iff a.slug c), ground (arith, eq_iff a.id c)),
  not-slug_taken c list (ground arith),
)

pub not-alias_taken :
    (c : String) (list : List Account) → alias_taken c list ≡ false → All (λ a. a.alias ≢ c) list
unfolding alias_taken
not-alias_taken c [] h = tt
not-alias_taken c (a ∷ list) h =
    (ground (arith, eq_iff a.alias c), not-alias_taken c list (ground arith))

Made-cases : (m : Made) → (m ≡ made) ⊎ ((m ≡ exists) ⊎ (m ≡ failed))
Made-cases made = inl refl
Made-cases exists = inr (inl refl)
Made-cases failed = inr (inr refl)

-- The directory of a new account is made for it, under a name that no account has.
pub provision_lem :
    (mkdir : String → Made) (base : String) (list : List Account) (left attempt : ℕ) (slug : String)
    (found : String)
    → slug_taken slug list ≡ false
    → provision mkdir base list left attempt slug ≡ some found
    → (slug_taken found list ≡ false) × (mkdir found ≡ made)
unfolding provision
provision_lem mkdir base list zero attempt slug found free e = cc
provision_lem mkdir base list (suc left) attempt slug found free e =
    elim (Made-cases (mkdir slug)) [
      | inl m ↦
          let h : some slug ≡ some found = rw (provision, m) at e in
          let same : slug ≡ found = some-injective slug found h in
          (ap (λ c. slug_taken c list) (sym same) ∙ free, ap mkdir (sym same) ∙ m)
      | inr (inl m) ↦
          provision_lem mkdir base list left (suc attempt)
            (unique_slug (numbered base (attempt + 2)) list) found
            (unique_slug-free (numbered base (attempt + 2)) list) (rw (provision, m) at e)
      | inr (inr m) ↦ let h : Path (Option String) none (some found) = rw (provision, m) at e in cc
    ]

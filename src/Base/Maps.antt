-- ===== src/Base/Maps.antt =====
-- Go's maps with string keys, as association lists with one entry for a key.
use mathlib.Core.Path.{◌≡◌, refl, sym, subst, ◌∙◌}
use mathlib.Core.Bool.{not}
use mathlib.Core.List.{List, [], ◌∷◌}
use mathlib.Core.Option.{Option, none, some, some-injective}
use native.Mathlib.Omega.{arith}
use Prim.Native.String.{String}
use text.Mathlib.Text.{◌==◌}
use text.Mathlib.TextEquality.{eq_iff}
use mathlib.Core.Logic.{inl, inr}
use clawdh.Base.Tests.{if◌then◌else◌, Bool-cases}
use clawdh.Base.Lists.{filter}

module _ {ℓ} {V : Type ℓ} where
  -- `v, ok := m[k]`
  abbrev pub lookup : String → List (String × V) → Option V
  lookup k [] = none
  lookup k ((j, v) ∷ m) = let rest = lookup k m in if j == k then some v else rest

  -- `m[k] = v`
  abbrev pub put : String → V → List (String × V) → List (String × V)
  put k v [] = (k, v) ∷ []
  put k v ((j, w) ∷ m) = let rest = put k v m in if j == k then (k, v) ∷ m else (j, w) ∷ rest

  -- `delete(m, k)`
  abbrev pub delete : String → List (String × V) → List (String × V)
  delete k m = filter (λ e. not (e.0 == k)) m

  pub lookup-put :
      (k j : String) (v : V) (m : List (String × V))
      → lookup j (put k v m) ≡ (if k == j then some v else lookup j m)
  lookup-put k j v [] = refl
  lookup-put k j v ((i, w) ∷ m) =
      ground (arith, eq_iff k j, eq_iff i k, eq_iff i j, lookup-put k j v m)

  pub lookup-delete :
      (k j : String) (m : List (String × V))
      → lookup j (delete k m) ≡ (if k == j then none else lookup j m)
  lookup-delete k j [] = ground arith
  lookup-delete k j ((i, w) ∷ m) =
      ground (arith, eq_iff k j, eq_iff i k, eq_iff i j, lookup-delete k j m)

-- What is so of every value of a map.
abbrev pub Each {ℓ κ} : {V : Type ℓ} → (V → Type κ) → List (String × V) → Type (ℓ ⊔ κ)
Each {V = V} P m = (k : String) (v : V) → lookup k m ≡ some v → P v

module _ {ℓ κ} {V : Type ℓ} (P : V → Type κ) (k : String) (m : List (String × V))
    (each : Each P m) where
  pub Each-put : (v : V) → P v → Each P (put k v m)
  Each-put v p j w found =
      let stored : Path (Option V) (if k == j then some v else lookup j m) (some w) =
        sym (lookup-put k j v m) ∙ found in
      elim (Bool-cases (k == j)) [
        | inl y ↦ subst P (some-injective v w (rw y at stored)) p
        | inr n ↦ each j w (rw n at stored)
      ]

  pub Each-delete : Each P (delete k m)
  Each-delete j w found =
      let kept : Path (Option V) (if k == j then none else lookup j m) (some w) =
        sym (lookup-delete k j m) ∙ found in
      elim (Bool-cases (k == j)) [
        | inl y ↦ let bad : Path (Option V) none (some w) = rw y at kept in cc
        | inr n ↦ each j w (rw n at kept)
      ]

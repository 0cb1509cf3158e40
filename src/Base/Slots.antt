-- ===== src/Base/Slots.antt =====
-- A pointer to the element that a filter in place drops: after the loop it reads the element behind
-- it, unless there is none.
use mathlib.Core.List.{append_assoc, append-nil}
use mathlib.Core.Path.{◌≡◌, refl, ap}
use mathlib.Core.Bool.{Bool, true, false, not}
use mathlib.Core.List.{List, [], ◌∷◌, ◌++◌}
use mathlib.Core.Option.{none, some}
use native.Mathlib.Omega.{arith}
use clawdh.Base.Lists.{length, get_elem?, filter, find?, drop, index?, last_index?, All, after_head}
use clawdh.Base.Scan.{compact, compact_lem}

module _ {ℓ} {A : Type ℓ} (p : A → Bool) where
  abbrev pub Misses : List A → Type 0
  Misses = All (λ x. p x ≡ false)

  filter-Misses : (xs : List A) → Misses xs → filter (λ x. not (p x)) xs ≡ xs
  filter-Misses [] h = refl
  filter-Misses (x ∷ xs) h = rw (h.0) (ap (◌∷◌ x) (filter-Misses xs h.1))

  pub filter-middle :
      (before tail : List A) (x : A)
      → p x ≡ true
      → Misses before
      → Misses tail
      → filter (λ y. not (p y)) (before ++ x ∷ tail) ≡ before ++ tail
  filter-middle [] tail x hit h k = rw hit (filter-Misses tail k)
  filter-middle (b ∷ before) tail x hit h k =
      rw (h.0) (ap (◌∷◌ b) (filter-middle before tail x hit h.1 k))

  pub index?-middle :
      (before tail : List A) (x : A)
      → p x ≡ true
      → Misses before
      → index? p (before ++ x ∷ tail) ≡ some (length before)
  index?-middle [] tail x hit h = rw hit
  index?-middle (b ∷ before) tail x hit h =
      rw (h.0) (ap after_head (index?-middle before tail x hit h.1))

  pub find?-middle :
      (before tail : List A) (x : A)
      → p x ≡ true
      → Misses before
      → find? p (before ++ x ∷ tail) ≡ some x
  find?-middle [] tail x hit h = rw hit
  find?-middle (b ∷ before) tail x hit h = rw (h.0) (find?-middle before tail x hit h.1)

  last_index?-Misses : (xs : List A) → Misses xs → last_index? p xs ≡ none
  last_index?-Misses [] h = refl
  last_index?-Misses (x ∷ xs) h = ground (arith, last_index?-Misses xs h.1)

  pub last_index?-middle :
      (before tail : List A) (x : A)
      → p x ≡ true
      → Misses before
      → Misses tail
      → last_index? p (before ++ x ∷ tail) ≡ some (length before)
  last_index?-middle [] tail x hit h k = ground (arith, last_index?-Misses tail k)
  last_index?-middle (b ∷ before) tail x hit h k =
      ground (arith, last_index?-middle before tail x hit h.1 k)

  pub get_elem?-middle :
      (before tail : List A) (x : A) → get_elem? (before ++ x ∷ tail) (length before) ≡ some x
  get_elem?-middle [] tail x = refl
  get_elem?-middle (b ∷ before) tail x = get_elem?-middle before tail x

  -- The pointer reads the element behind.
  pub slot_behind :
      (before rest : List A) (x next : A)
      → p x ≡ true
      → Misses before
      → Misses (next ∷ rest)
      → get_elem? (compact (λ y. not (p y)) (before ++ x ∷ next ∷ rest)).slots (length before)
        ≡ some next
  slot_behind before rest x next hit h k =
      rw (compact_lem, filter-middle before (next ∷ rest) x hit h k, append_assoc)
        (get_elem?-middle before _ next)

  drop-length : (before tail : List A) → drop (length before) (before ++ tail) ≡ tail
  drop-length [] tail = refl
  drop-length (b ∷ before) tail = drop-length before tail

  -- The last element is not written over.
  pub slot_last :
      (before : List A) (x : A)
      → p x ≡ true
      → Misses before
      → get_elem? (compact (λ y. not (p y)) (before ++ x ∷ [])).slots (length before) ≡ some x
  slot_last before x hit h =
      rw (compact_lem, filter-middle before [] x hit h tt, append-nil, drop-length)
        (get_elem?-middle before [] x)

-- ===== src/Panel/Builds/Bound.antt =====
-- The bound on what noteBuild of panel/builds.go keeps.
use clawdh.Base.{
  ℕ, ◌-◌, ◌≤◌, ◌<◌, ◌≡◌, refl, String, List, [], ◌∷◌, some, Bool-cases, inl, inr, Bool, true, not,
  ◌==◌, arith, ltb, leb, if◌then◌else◌, any, filter, length, length-append, length-filter-le,
  trim_space, eq_iff,
}
use clawdh.Panel.Builds.{
  Builds, max_builds, builds_settle, oldest_from, make_room, note, note_build,
}

length-filter-lt :
    {A : Type 0} (gone : A → Bool) (xs : List A)
    → any gone xs ≡ true
    → length (filter (λ x. not (gone x)) xs) < length xs
length-filter-lt gone [] h = cc h
length-filter-lt gone (x ∷ xs) h =
    ground (arith, length-filter-lt gone xs, length-filter-le (λ x. not (gone x)) xs)

-- The loop finds a build, the one found before or one of the list.
found :
    (c : String × ℕ) (bs : List (String × ℕ))
    → (o : String × ℕ) × (oldest_from (some c) bs ≡ some o)
      × (any (λ b. b.0 == o.0) (c ∷ bs) ≡ true)
unfolding oldest_from
found c [] = (c, refl, rw ((eq_iff c.0 c.0).1 refl) refl)
found c (b ∷ bs) = elim (Bool-cases (ltb b.1 c.1)) [
  | inl e ↦ let (o, p, q) = found b bs in rw e (o, p, behind c o (b ∷ bs) q)
  | inr e ↦ let (o, p, q) = found c bs in rw e (o, p, between c b o bs q)
]
  where
    behind :
        (c o : String × ℕ) (xs : List (String × ℕ))
        → any (λ b. b.0 == o.0) xs ≡ true
        → any (λ b. b.0 == o.0) (c ∷ xs) ≡ true
    behind c o xs q = ground (arith, q)

    between :
        (c b o : String × ℕ) (xs : List (String × ℕ))
        → any (λ b. b.0 == o.0) (c ∷ xs) ≡ true
        → any (λ b. b.0 == o.0) (c ∷ b ∷ xs) ≡ true
    between c b o xs q = ground (arith, q)

length-make_room :
    (first : List (String × ℕ)) → length first ≤ max_builds → length (make_room first) < max_builds
unfolding make_room oldest_from
length-make_room [] h = omega arith
length-make_room (b ∷ bs) h = elim (Bool-cases (leb max_builds (length (b ∷ bs)))) [
  | inr e ↦ rw (make_room, e) (ground arith)
  | inl e ↦
      let (o, p, q) = found b bs in
      let shorter = length-filter-lt (λ x. x.0 == o.0) (b ∷ bs) q in
      rw (make_room, e, p) (omega (arith, shorter, h))
]

note-bound :
    (version : String) (now : ℕ) (b : Builds)
    → length b.first ≤ max_builds
    → length (note version now b).first ≤ max_builds
unfolding note
note-bound version now b h = elim (Bool-cases (any (λ x. x.0 == version) b.first)) [
  | inl e ↦ rw e h
  | inr e ↦
      rw
        (
          e,
          length-append (make_room b.first)
              ((version, if ltb (now - b.since) builds_settle then 0 else now) ∷ []),
        )
        (omega (arith, length-make_room b.first h))
]

-- The panel keeps at most 200 builds: noting a build keeps to the bound.
pub length-note_build :
    (version : String) (now : ℕ) (b : Builds)
    → length b.first ≤ max_builds
    → length (note_build version now b).first ≤ max_builds
unfolding note_build
length-note_build version now b h = elim (Bool-cases (trim_space version == "")) [
  | inl e ↦ rw e h
  | inr e ↦ rw e (note-bound (trim_space version) now _ h)
]

-- ===== src/Panel/Updates/Newest.antt =====
-- panel/builds.go: the newest build that notUpdating finds.
use clawdh.Base.{
  ℕ, suc, ◌+◌, ◌≤◌, ◌<◌, ◌≡◌, ◌≢◌, refl, sym, ◌∙◌, ◌⊎◌, inl, inr, String, List, [], ◌∷◌, some, Bool,
  true, false, not, ◌&&◌, ◌==◌, eq_iff, ltb, leb, if◌then◌else◌, split_if, lookup, put, lookup-put,
  filter, length, Option-cases, Bool-cases, All, arith, subst,
}
use clawdh.Panel.Model.{Device, Data}
use clawdh.Panel.Updates.{
  checked_in, count_of, tallied, running_from, newer_build, newest_from, newest_build,
}

-- The machines that run a build now.
unfoldable pub runs : ℕ → String → Device → Bool
unfolding checked_in
runs now v dev = dev.version == v && checked_in now dev

count_of-put :
    (v w : String) (n : ℕ) (m : List (String × ℕ))
    → count_of w (put v n m) ≡ (if v == w then n else count_of w m)
unfolding count_of
count_of-put v w n m = elim (Bool-cases (v == w)) [
  | inl y ↦ rw (count_of, lookup-put v w n m, y) refl
  | inr k ↦ rw (count_of, lookup-put v w n m, k) refl
]

once : Bool → ℕ
once b = if b then 1 else 0

tallied_lem :
    (now : ℕ) (v : String) (dev : Device) (m : List (String × ℕ))
    → v ≢ ""
    → count_of v (tallied now dev m) ≡ count_of v m + once (runs now v dev)
unfolding tallied runs once
tallied_lem now v dev m named = elim (Bool-cases (dev.version == v)) [
  | inl y ↦
      let same : dev.version ≡ v = (eq_iff dev.version v).0 y in
      let named_too : (dev.version == "") ≡ false = rw same (unnamed named) in
      elim (Bool-cases (checked_in now dev)) [
        | inl l ↦
            rw (tallied, runs, named_too, l, y)
              (count_of-put dev.version v (suc (count_of dev.version m)) m
                ∙ rw (y, same) (omega arith))
        | inr l ↦ rw (tallied, runs, named_too, l, y) (omega arith)
      ]
  | inr n ↦
      rw (tallied, runs, n)
        (split_if (λ t. count_of v t ≡ count_of v m + 0)
          (not (dev.version == "") && checked_in now dev)
          (λ y. count_of-put dev.version v (suc (count_of dev.version m)) m ∙ rw n (omega arith))
          (λ k. omega arith))
]
  where
    unnamed : v ≢ "" → (v == "") ≡ false
    unnamed given = elim (Bool-cases (v == "")) [
      | inl e ↦ absurd (given ((eq_iff v "").0 e))
      | inr e ↦ e
    ]

-- The table counts the machines of every build that has a name.
pub count_of-running_from :
    (now : ℕ) (v : String) (devices : List Device) (m : List (String × ℕ))
    → v ≢ ""
    → count_of v (running_from now devices m) ≡ count_of v m + length (filter (runs now v) devices)
unfolding running_from once
count_of-running_from now v [] m named = omega arith
count_of-running_from now v (dev ∷ devices) m named =
    let rest = count_of-running_from now v devices (tallied now dev m) named in
    let here = tallied_lem now v dev m named in
    elim (Bool-cases (runs now v dev)) [
      | inl y ↦ rw y (omega (arith, rest, rw y at here))
      | inr n ↦ rw n (omega (arith, rest, rw n at here))
    ]

pub apart_of : (s t : String) → (s == t) ≡ false → s ≢ t
apart_of s t h e = let bad : Path Bool false true = sym h ∙ (eq_iff s t).1 e in cc

-- The build that is found was first seen at its instant, and two machines run it.
unfoldable pub IsOut : List (String × ℕ) → List (String × ℕ) → String × ℕ → Type 0
IsOut first running best =
    (best ≡ ("", 0))
    ⊎ ((count_of best.0 first ≡ best.1) × (2 ≤ count_of best.0 running) × (0 < best.1))

newer_build-IsOut :
    (first running : List (String × ℕ)) (v : String) (best : String × ℕ)
    → IsOut first running best
    → IsOut first running (newer_build first running v best)
unfolding IsOut newer_build
newer_build-IsOut first running v best h =
    split_if (IsOut first running) (leb 2 (count_of v running) && ltb best.1 (count_of v first))
      (λ y. inr (refl, ground (arith, y), ground (arith, y))) (λ n. h)

pub newest_from-IsOut :
    (first running builds : List (String × ℕ)) (best : String × ℕ)
    → IsOut first running best
    → IsOut first running (newest_from first running builds best)
unfolding newest_from
newest_from-IsOut first running [] best h = h
newest_from-IsOut first running ((v, n) ∷ builds) best h =
    newest_from-IsOut first running builds (newer_build first running v best)
      (newer_build-IsOut first running v best h)

module _ (first running : List (String × ℕ)) where
  newer_build_mono :
      (v : String) (best : String × ℕ) → best.1 ≤ (newer_build first running v best).1
  unfolding newer_build
  newer_build_mono v best =
      split_if (λ (b : String × ℕ). best.1 ≤ b.1)
        (leb 2 (count_of v running) && ltb best.1 (count_of v first)) (λ y. ground (arith, y))
        (λ n. omega arith)

  newer_build_lem :
      (v : String) (best : String × ℕ)
      → 2 ≤ count_of v running
      → count_of v first ≤ (newer_build first running v best).1
  unfolding newer_build
  newer_build_lem v best two =
      split_if (λ (b : String × ℕ). count_of v first ≤ b.1)
        (leb 2 (count_of v running) && ltb best.1 (count_of v first)) (λ y. omega arith)
        (λ n. ground (arith, n, two))

  newest_from_mono :
      (builds : List (String × ℕ)) (best : String × ℕ)
      → best.1 ≤ (newest_from first running builds best).1
  unfolding newest_from
  newest_from_mono [] best = omega arith
  newest_from_mono ((v, n) ∷ builds) best =
      omega
        (arith, newer_build_mono v best, newest_from_mono builds (newer_build first running v best))

  -- No build of two machines was first seen later than the one that is found.
  newest_from_lem :
      (v : String) (builds : List (String × ℕ)) (best : String × ℕ) {n : ℕ}
      → lookup v builds ≡ some n
      → 2 ≤ count_of v running
      → count_of v first ≤ (newest_from first running builds best).1
  unfolding newest_from
  newest_from_lem v [] best found two = cc
  newest_from_lem v ((w, k) ∷ builds) best found two = elim (Bool-cases (w == v)) [
    | inl y ↦
        let same : w ≡ v = (eq_iff w v).0 y in
        let here : count_of v first ≤ (newer_build first running w best).1 =
          subst (λ x. count_of v first ≤ (newer_build first running x best).1) (sym same)
            (newer_build_lem v best two) in
        omega (arith, here, newest_from_mono builds (newer_build first running w best))
    | inr n ↦ newest_from_lem v builds (newer_build first running w best) (rw n at found) two
  ]

-- No build with a name that two machines in touch run was first seen later.
abbrev pub IsNewest : List (String × ℕ) → ℕ → List Device → ℕ → Type 0
IsNewest first now devices at =
    All
      (λ dev.
        (dev.version ≡ "")
        ⊎ (length (filter (runs now dev.version) devices) < 2)
        ⊎ (count_of dev.version first ≤ at))
      devices

pub newest_build-IsNewest :
    (first : List (String × ℕ)) (d : Data) (now : ℕ)
    → IsNewest first now d.devices (newest_build first d now).1
unfolding newest_build count_of
newest_build-IsNewest first d now = for_all d.devices
  where
    each :
        (dev : Device)
        → (dev.version ≡ "")
          ⊎ (length (filter (runs now dev.version) d.devices) < 2)
          ⊎ (count_of dev.version first ≤ (newest_build first d now).1)
    each dev = elim (Bool-cases (dev.version == "")) [
      | inl blank ↦ inl ((eq_iff dev.version "").0 blank)
      | inr named ↦
          let counted : count_of dev.version (running_from now d.devices [])
              ≡ 0 + length (filter (runs now dev.version) d.devices) =
            count_of-running_from now dev.version d.devices [] (apart_of dev.version "" named) in
          elim (Option-cases (lookup dev.version (running_from now d.devices []))) [
            | inl e ↦
                let zero_of : count_of dev.version (running_from now d.devices []) ≡ 0 =
                  rw (count_of, e) refl in
                inr (inl (omega (arith, counted, zero_of)))
            | inr (n, e) ↦
                elim (Bool-cases (leb 2 (count_of dev.version (running_from now d.devices [])))) [
                  | inr few ↦
                      let less : count_of dev.version (running_from now d.devices []) < 2 =
                        ground (arith, few) in
                      inr (inl (omega (arith, counted, less)))
                  | inl many ↦ inr (
                      inr (
                        newest_from_lem first (running_from now d.devices []) dev.version
                          (running_from now d.devices []) ("", 0) e (ground (arith, many))))
                ]
          ]
    ]

    for_all :
        (devices : List Device)
        → All
            (λ dev.
              (dev.version ≡ "")
              ⊎ (length (filter (runs now dev.version) d.devices) < 2)
              ⊎ (count_of dev.version first ≤ (newest_build first d now).1))
            devices
    for_all [] = tt
    for_all (dev ∷ devices) = (each dev, for_all devices)

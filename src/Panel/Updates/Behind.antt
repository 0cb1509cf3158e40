-- ===== src/Panel/Updates/Behind.antt =====
-- panel/builds.go: which machines notUpdating names.
use clawdh.Base.{
  ℕ, zero, suc, ◌+◌, ◌*◌, ◌≤◌, ◌<◌, ◌≡◌, ◌≢◌, refl, sym, ap, ◌∙◌, ◌⊎◌, inl, inr, String, List, [],
  ◌∷◌, none, some, Bool, true, false, not, ◌&&◌, ◌||◌, ◌==◌, eq_iff, ltb, leb, split_if, lookup,
  get_elem?, filter, length, All_mono, Option-cases, Bool-cases, All, arith, minute, hour,
}
use clawdh.Panel.Model.{Device, Data}
use clawdh.Panel.Updates.{
  behind_after, live_within, checked_in, count_of, running_from, is_behind, behind_from,
  newest_build, not_updating,
}
use clawdh.Panel.Updates.Newest.{
  runs, count_of-running_from, apart_of, IsOut, newest_from-IsOut, IsNewest, newest_build-IsNewest,
}

-- A machine that is named: it checked in a little while ago, on a build that has a name and is not the newest
-- one, and that the panel does not know or has first seen before that; and it gave no reason of its own.
abbrev pub StaysBehind : List (String × ℕ) → ℕ → String × ℕ → Device → Type 0
StaysBehind first now best dev =
    (now ≤ dev.last_seen + 15 * minute)
    × (dev.version ≢ "")
    × (dev.version ≢ best.0)
    × (dev.update_error ≡ "")
    × ((lookup dev.version first ≡ none)
        ⊎ ((seen : ℕ) × (lookup dev.version first ≡ some seen) × (seen < best.1)))

four_false :
    (a b c d : Bool)
    → not (a || b || not c || not d) ≡ true
    → (a ≡ false) × (b ≡ false) × (c ≡ true) × (d ≡ true)
four_false false false true true h = (refl, refl, refl, refl)
four_false true b c d h = cc
four_false false true c d h = cc
four_false false false false d h = cc
four_false false false true false h = cc

or_false : (a b : Bool) → (a || b) ≡ false → (a ≡ false) × (b ≡ false)
or_false false b h = (refl, h)
or_false true b h = cc

both_true : (a b : Bool) → a && b ≡ true → (a ≡ true) × (b ≡ true)
both_true true b h = (refl, h)
both_true false b h = cc

is_behind-StaysBehind :
    (first : List (String × ℕ)) (now : ℕ) (best : String × ℕ) (dev : Device)
    → is_behind first now best dev ≡ true
    → StaysBehind first now best dev
unfolding is_behind checked_in
is_behind-StaysBehind first now (newest, at) dev h =
    let (tests, old) = both_true _ _ h in
    let (named, other, well, seen) =
      four_false (dev.version == "") (dev.version == newest) (dev.update_error == "")
        (leb now (dev.last_seen + live_within)) tests in
    (
      ground (arith, seen),
      apart_of dev.version "" named,
      apart_of dev.version newest other,
      (eq_iff dev.update_error "").0 well,
      elim (Option-cases (lookup dev.version first)) [
        | inl e ↦ inl e
        | inr (s, e) ↦ inr (s, e, older s e old)
      ],
    )
  where
    older :
        (s : ℕ)
        → lookup dev.version first ≡ some s
        → Path Bool
            (elim (lookup dev.version first) as (λ _. Bool) [
              | none ↦ true
              | some seen ↦ ltb seen at
            ])
            true
        → s < at
    older s e old = let k : ltb s at ≡ true = rw e at old in ground (arith, k)

module _ (first : List (String × ℕ)) (now : ℕ) (best : String × ℕ) where
  abbrev pub IsNamed : List Device → String → Type 0
  IsNamed devices id =
      (i : ℕ) × (dev : Device) × (get_elem? devices i ≡ some dev)
      × (dev.id ≡ id)
      × StaysBehind first now best dev

  IsNamed-later :
      (dev : Device) (devices : List Device) (id : String)
      → IsNamed devices id
      → IsNamed (dev ∷ devices) id
  IsNamed-later dev devices id (i, machine, at, same, h) = (suc i, machine, at, same, h)

  behind_from-IsNamed :
      (devices : List Device) → All (IsNamed devices) (behind_from first now best devices)
  unfolding behind_from
  behind_from-IsNamed [] = tt
  behind_from-IsNamed (dev ∷ devices) =
      let rest =
        All_mono (IsNamed devices) (IsNamed (dev ∷ devices)) (IsNamed-later dev devices)
          (behind_from first now best devices) (behind_from-IsNamed devices) in
      elim (Bool-cases (is_behind first now best dev)) [
        | inl y ↦ rw y ((zero, dev, refl, refl, is_behind-StaysBehind first now best dev y), rest)
        | inr n ↦ rw n rest
      ]

-- The machines that are named as not updating are all on the panel, in touch for the last quarter of an hour, on
-- a build that is not the newest and not known to be as new, and gave no reason of their own. The newest is a
-- build that two machines in touch run, that was first seen an hour ago or more, at a known instant, and no
-- build with a name that two machines in touch run was first seen later.
pub not_updating_lem :
    (first : List (String × ℕ)) (d : Data) (now : ℕ)
    → All
        (λ id.
          IsNamed first now (newest_build first d now) d.devices id
          × (2 ≤ length (filter (runs now (newest_build first d now).0) d.devices))
          × (count_of (newest_build first d now).0 first ≡ (newest_build first d now).1)
          × ((newest_build first d now).1 + hour ≤ now)
          × (0 < (newest_build first d now).1)
          × IsNewest first now d.devices (newest_build first d now).1)
        (not_updating first d now)
unfolding not_updating newest_build IsOut count_of
not_updating_lem first d now =
    let best = newest_build first d now in
    let running = running_from now d.devices [] in
    let out : IsOut first running best =
      newest_from-IsOut first running running ("", 0) (inl refl) in
    split_if (All Q) (best.0 == "" || ltb now (best.1 + behind_after)) (λ y. tt)
      (λ n. with_rest out n)
  where
    Q : String → Type 0
    Q id =
        IsNamed first now (newest_build first d now) d.devices id
        × (2 ≤ length (filter (runs now (newest_build first d now).0) d.devices))
        × (count_of (newest_build first d now).0 first ≡ (newest_build first d now).1)
        × ((newest_build first d now).1 + hour ≤ now)
        × (0 < (newest_build first d now).1)
        × IsNewest first now d.devices (newest_build first d now).1

    with_rest :
        IsOut first (running_from now d.devices []) (newest_build first d now)
        → ((newest_build first d now).0 == ""
            || ltb now ((newest_build first d now).1 + behind_after))
          ≡ false
        → All Q (behind_from first now (newest_build first d now) d.devices)
    with_rest (inl none_found) n =
        let bad : Path Bool true false =
          sym (ap (λ b. b.0 == "" || ltb now (b.1 + behind_after)) none_found) ∙ n in
        cc
    with_rest (inr (seen, twice, known)) n =
        let tests = or_false _ _ n in
        let counted : count_of (newest_build first d now).0 (running_from now d.devices [])
            ≡ 0 + length (filter (runs now (newest_build first d now).0) d.devices) =
          count_of-running_from now (newest_build first d now).0 d.devices []
            (apart_of (newest_build first d now).0 "" tests.0) in
        let long : (newest_build first d now).1 + hour ≤ now = ground (arith, tests.1) in
        let two : 2 ≤ length (filter (runs now (newest_build first d now).0) d.devices) =
          omega (arith, twice, counted) in
        All_mono (IsNamed first now (newest_build first d now) d.devices) Q
          (λ id h. (h, two, seen, long, known, newest_build-IsNewest first d now))
          (behind_from first now (newest_build first d now) d.devices)
          (behind_from-IsNamed first now (newest_build first d now) d.devices)

-- ===== src/Panel/Lending/Slots.antt =====
-- RevokeShare of panel/store.go: the line that a revocation writes reads the share through a pointer
-- into the array that the loop has rewritten.
use clawdh.Base.{
  ℕ, String, List, [], ◌∷◌, ◌++◌, ◌≡◌, refl, ap, ◌∙◌, Bool, true, not, ◌==◌, some, take, get_elem?,
  length,
}
use clawdh.Base.Scan.{take-compact}
use clawdh.Base.Slots.{Misses, filter-middle, last_index?-middle, slot_behind, slot_last}
use clawdh.Panel.Model.{Share, Data}
use clawdh.Panel.Roster.{log, person_name, account_name}
use clawdh.Panel.Lending.{revoke_share, without_share, taken_line}
use clawdh.Panel.Answer.{ok}

-- The test of the loop.
abbrev pub has_id : String → Share → Bool
has_id id sh = sh.id == id

-- The panel with these shares.
abbrev pub lending : Data → List Share → Data
lending d shares = record d { shares = shares }

taken_line-lending :
    (d : Data) (shares : List Share) (sh : Share)
    → taken_line (lending d shares) sh ≡ taken_line d sh
unfolding taken_line person_name account_name
taken_line-lending d shares sh = refl

kept_shares :
    (id : String) (d : Data) (before tail : List Share) (sh : Share)
    → has_id id sh ≡ true
    → Misses (has_id id) before
    → Misses (has_id id) tail
    → let c = without_share id (lending d (before ++ sh ∷ tail)) in
      take c.kept c.slots ≡ before ++ tail
unfolding without_share
kept_shares id d before tail sh hit h k =
    take-compact (λ x. not (has_id id x)) (before ++ sh ∷ tail)
    ∙ filter-middle (has_id id) before tail sh hit h k

revoke_share-slot :
    (id who : String) (now : ℕ) (d : Data) (before tail : List Share) (sh read : Share)
    → has_id id sh ≡ true
    → Misses (has_id id) before
    → Misses (has_id id) tail
    → get_elem? (without_share id (lending d (before ++ sh ∷ tail))).slots (length before)
      ≡ some read
    → revoke_share id who now (lending d (before ++ sh ∷ tail))
      ≡ ok (log now who (taken_line d read) (lending d (before ++ tail)))
unfolding revoke_share
revoke_share-slot id who now d before tail sh read hit h k e =
    rw (last_index?-middle (has_id id) before tail sh hit h k, revoke_share)
      (rw (e, revoke_share)
        (ap (λ s. ok (log now who (taken_line (lending d s) read) (lending d s)))
            (kept_shares id d before tail sh hit h k)
          ∙ ap (λ t. ok (log now who t (lending d (before ++ tail))))
              (taken_line-lending d (before ++ tail) read)))

-- Revoking a share that has another one behind it takes the right share away and writes the wrong
-- line: the person and the account that the log names are those of the share behind it.
pub revoke_share-names_next :
    (id who : String) (now : ℕ) (d : Data) (before rest : List Share) (sh next : Share)
    → has_id id sh ≡ true
    → Misses (has_id id) before
    → Misses (has_id id) (next ∷ rest)
    → revoke_share id who now (lending d (before ++ sh ∷ next ∷ rest))
      ≡ ok (log now who (taken_line d next) (lending d (before ++ next ∷ rest)))
revoke_share-names_next id who now d before rest sh next hit h k =
    revoke_share-slot id who now d before (next ∷ rest) sh next hit h k
      (unfold without_share in slot_behind (has_id id) before rest sh next hit h k)

-- The line is right when the share is the last one.
pub revoke_share-names_last :
    (id who : String) (now : ℕ) (d : Data) (before : List Share) (sh : Share)
    → has_id id sh ≡ true
    → Misses (has_id id) before
    → revoke_share id who now (lending d (before ++ sh ∷ []))
      ≡ ok (log now who (taken_line d sh) (lending d (before ++ [])))
revoke_share-names_last id who now d before sh hit h =
    revoke_share-slot id who now d before [] sh sh hit h tt
      (unfold without_share in slot_last (has_id id) before sh hit h)

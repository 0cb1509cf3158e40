-- ===== src/Panel/Accounts/Slots.antt =====
-- handleWithdraw of panel/handlers.go: the line that a withdrawal writes reads the account through a
-- pointer into the array that the removal has rewritten.
use clawdh.Base.{
  ℕ, String, List, ◌∷◌, ◌++◌, ◌≡◌, ◌≢◌, refl, Bool, true, ◌==◌, ◌<>◌, some, arith, eq_iff,
  get_elem?, length,
}
use clawdh.Base.Slots.{Misses, find?-middle, index?-middle, get_elem?-middle, slot_behind}
use clawdh.Panel.Model.{Account, Device, Data}
use clawdh.Panel.Roster.{log, person_name, account}
use clawdh.Panel.Accounts.{
  without_account, removed, remove_account, slot_name, may_withdraw, handle_withdraw,
}
use clawdh.Panel.Answer.{ok, or_refuse}

-- The test of the removal's loop.
abbrev pub has_id : String → Account → Bool
has_id id a = a.id == id

-- The panel with these accounts.
abbrev pub holding : Data → List Account → Data
holding d accounts = record d { accounts = accounts }

allowed :
    (d : Data) (dev : Device) (a : Account)
    → a.added_by ≡ dev.person_id
    → a.added_by ≢ ""
    → may_withdraw d dev a ≡ ok tt
unfolding may_withdraw
allowed d dev a h k = ground (arith, eq_iff a.added_by "", eq_iff a.added_by dev.person_id)

remove_account-middle :
    (id : String) (d : Data) (before tail : List Account) (a : Account)
    → has_id id a ≡ true
    → Misses (has_id id) before
    → remove_account id (holding d (before ++ a ∷ tail))
      ≡ some (removed id (holding d (before ++ a ∷ tail)), a)
unfolding remove_account
remove_account-middle id d before tail a hit h =
    let found : account (holding d (before ++ a ∷ tail)) id ≡ some a =
      unfold account in find?-middle (has_id id) before tail a hit h in
    rw (found, remove_account)

slot_name-behind :
    (id : String) (d : Data) (before rest : List Account) (a next : Account)
    → has_id id a ≡ true
    → Misses (has_id id) before
    → Misses (has_id id) (next ∷ rest)
    → slot_name (without_account id (holding d (before ++ a ∷ next ∷ rest))) (length before)
      ≡ next.name
unfolding slot_name
slot_name-behind id d before rest a next hit h k =
    let read : get_elem? (without_account id (holding d (before ++ a ∷ next ∷ rest))).slots
          (length before)
        ≡ some next =
      unfold without_account in slot_behind (has_id id) before rest a next hit h k in
    rw (read, slot_name)

person_name-holding :
    (id : String) (d : Data) (accounts : List Account)
    → person_name (holding d accounts) id ≡ person_name d id
unfolding person_name
person_name-holding id d accounts = refl

-- Taking back an account that has another one behind it removes the right account and writes the
-- wrong line: the name in the log is that of the account behind it.
pub handle_withdraw-names_next :
    (dev : Device) (id : String) (now : ℕ) (d : Data) (before rest : List Account)
    (a next : Account)
    → has_id id a ≡ true
    → Misses (has_id id) before
    → Misses (has_id id) (next ∷ rest)
    → a.added_by ≡ dev.person_id
    → a.added_by ≢ ""
    → handle_withdraw dev id now (holding d (before ++ a ∷ next ∷ rest))
      ≡ ok (
          log now
            (person_name d dev.person_id)
            ("took " <> next.name <> " back off the panel")
            (removed id (holding d (before ++ a ∷ next ∷ rest))))
unfolding handle_withdraw
handle_withdraw-names_next dev id now d before rest a next hit h k by named =
    rw (index?-middle (has_id id) before (next ∷ rest) a hit h, or_refuse)
      (rw (get_elem?-middle (has_id id) before (next ∷ rest) a) (
        rw (allowed (holding d (before ++ a ∷ next ∷ rest)) dev a by named) (
          rw (remove_account-middle id d before (next ∷ rest) a hit h)
            (rw (slot_name-behind id d before rest a next hit h k, person_name-holding)))))

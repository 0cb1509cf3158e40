-- ===== src/Panel/WellFormed.antt =====
-- The panel's integrity: one share for an account and a person, and every share of an account and a
-- person that are there. The children are about the decisions.
pub mod Removals
pub mod Additions
use clawdh.Base.{ℕ, String, List, Bool, true, false, ◌≡◌, ◌==◌, any, All, Pairwise}
use clawdh.Panel.Model.{Share, Data}
use clawdh.Panel.Roster.{same_pair}

-- Two shares that are not of one account and one person.
abbrev pub Distinct : Share → Share → Type 0
Distinct x y = same_pair x.account_id x.person_id y ≡ false

abbrev pub HasAccount : Data → String → Type 0
HasAccount d id = any (λ a. a.id == id) d.accounts ≡ true

abbrev pub HasPerson : Data → String → Type 0
HasPerson d id = any (λ p. p.id == id) d.people ≡ true

pub record IsWellFormed (d : Data) : Type 0 where
  pub one_share : Pairwise Distinct d.shares
  pub lent : All (λ sh. HasAccount d sh.account_id) d.shares
  pub held : All (λ sh. HasPerson d sh.person_id) d.shares

-- ===== src/Panel/Lending.antt =====
-- Giving and taking back access: `IssueShareFor` and `RevokeShare` of panel/store.go, behind
-- `handleShare` and `handleRevokeShare`. The key's hash, its sealed form and the share's id are drawn
-- before the write.
pub mod Keys
pub mod Slots
use clawdh.Base.{
  ℕ, ◌+◌, String, Option, none, some, Bool, true, false, not, ◌<>◌, ◌==◌, ltb, if◌then◌else◌,
  last_index?, get_elem?, take,
}
use clawdh.Base.Scan.{Compacted, compact}
use clawdh.Panel.Model.{Share, Data, Bytes}
use clawdh.Panel.Roster.{account_name, person_name, account, person, put_share, log}
use clawdh.Panel.Answer.{Result, ok, refuse, ◌>>=◌, ◌>>◌, or_refuse}
use clawdh.Panel.Spans.{human_duration}

pub record Grant : Type 0 where
  pub account_id : String
  pub person_id : String
  pub who : String
  pub span : ℕ  -- how long the access lasts; 0: until revoked
  pub share_id : String
  pub key_hash : String
  pub sealed_key : Bytes

unfoldable pub new_share : Grant → ℕ → Share
new_share g now = record {
  id = g.share_id;
  account_id = g.account_id;
  person_id = g.person_id;
  key_hash = g.key_hash;
  sealed_key = g.sealed_key;
  created_at = now;
  expires_at = (if ltb 0 g.span then now + g.span else 0);
  granted_by = g.who;
}

-- Store.IssueShareFor
unfoldable pub issue_share_for : Grant → ℕ → Data → Result Data
unfolding new_share
issue_share_for g now d = do
  a ← or_refuse (account d g.account_id) 400 ("no account with id \"" <> g.account_id <> "\"")
  p ← or_refuse (person d g.person_id) 400 ("no person with id \"" <> g.person_id <> "\"")
  let what = "gave " <> person_name d g.person_id <> " access to " <> account_name d g.account_id
  ok (
      log now g.who (if ltb 0 g.span then what <> " for " <> human_duration g.span else what)
        (put_share (new_share g now) d))

-- The array of shares after the loop of `RevokeShare` that drops the share from it.
unfoldable pub without_share : String → Data → Compacted Share
without_share id d = compact (λ sh. not (sh.id == id)) d.shares

-- The line for a share that was taken away.
unfoldable pub taken_line : Data → Share → String
taken_line d sh =
    "took "
    <> person_name d sh.person_id
    <> "'s access to "
    <> account_name d sh.account_id
    <> " away"

-- Store.RevokeShare. `removed` points at a slot of the array that the loop goes on to rewrite, and
-- the line of the log is written through it after the loop.
unfoldable pub revoke_share : String → String → ℕ → Data → Result Data
unfolding without_share taken_line
revoke_share id who now d =
    let c = without_share id d in
    let rest = (record d { shares = take c.kept c.slots }) in
    elim (last_index? (λ sh. sh.id == id) d.shares) [
      | none ↦ ok d
      | some i ↦ elim (get_elem? c.slots i) [
        | none ↦ ok rest
        | some removed ↦ ok (log now who (taken_line rest removed) rest)
      ]
    ]

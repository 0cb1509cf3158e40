-- ===== src/Panel/LoginEnds.antt =====
-- panel/loginend.go: what is said of a login that is about to end, or has, on the board and to the people whom
-- it matters to. The end of a stored login is read by a parameter.
pub mod Bands
use clawdh.Base.{
  ℕ, ◌+◌, ◌-◌, ◌*◌, ◌/◌, ◌≤◌, ◌<◌, ◌≡◌, ◌≢◌, ◌↔◌, ◌⊎◌, inl, inr, refl, String, List, [], ◌∷◌,
  Option, none, some, Bool, true, false, not, ◌&&◌, ◌||◌, ◌==◌, ◌<>◌, ltb, leb, any, get_elem?, set,
  last_index?, if◌then◌else◌, itoa, second, day, arith,
}
use clawdh.Panel.Model.{Bytes, Account, Share, Data}
use clawdh.Panel.Spans.{in_words}
use clawdh.Panel.Accounts.{login_end}

abbrev pub login_warn_within : ℕ
login_warn_within = 7 * day

abbrev pub login_ended_for : ℕ
login_ended_for = 7 * day

pub record Notice : Type 0 where
  pub id : String
  pub body : String

-- accountView, as far as the ends of the logins go.
pub record View : Type 0 where
  pub id : String
  pub warning : String
  pub login_ends_at : ℕ

-- The time that is left, or has gone since the end.
unfoldable pub distance : ℕ → ℕ → ℕ
distance end now = if leb end now then now - end else end - now

unfoldable pub fix : String
fix =
    "Claude logins last about four weeks and signing in again is the only way to renew one: sign in to the account and add it to the panel from that machine's clawdh page."

unfoldable pub login_end_warning : ℕ → ℕ → String
unfolding distance fix
login_end_warning end now =
    if leb end now
    then "Its login ended " <> (in_words (distance end now) <> (" ago. " <> fix))
    else if leb end (now + login_warn_within)
    then "Its login ends in " <> (in_words (distance end now) <> (". " <> fix))
    else ""

unfoldable pub band : ℕ → ℕ → String
band end now =
    if leb end now
    then if leb now (end + login_ended_for) then "ended" else ""
    else if leb end (now + day)
    then "1d"
    else if leb end (now + 3 * day)
    then "3d"
    else if leb end (now + login_warn_within)
    then "7d"
    else ""

unfoldable pub concerns : Data → Account → String → Bool
concerns d a person_id =
    a.added_by == person_id
    || any (λ sh. sh.account_id == a.id && sh.person_id == person_id) d.shares

-- time.Time.Unix, of an instant after 1970: the seconds from the zero time to then are taken off.
unfoldable pub unix : ℕ → ℕ
unix end = end / second - 62_135_596_800

unfoldable pub notice_id : String → ℕ → String → String
unfolding unix
notice_id id end band = "loginend:" <> (id <> (":" <> (itoa (unix end) <> (":" <> band))))

unfoldable pub notice_of : ℕ → Account → ℕ → Notice
unfolding notice_id band distance
notice_of now a end = record {
  id = notice_id a.id end (band end now);
  body =
      (if leb end now
        then a.name <> ("'s login ended " <> (in_words (distance end now) <> " ago"))
        else a.name <> ("'s login ends in " <> in_words (distance end now)))
      <> " — its owner needs to sign in to it again and add it to the panel";
}

-- What applyLoginEnds does to the view of an account.
unfoldable pub with_end : ℕ → ℕ → View → View
unfolding login_end_warning
with_end end now v =
    let w = login_end_warning end now in
    record v {
      login_ends_at = end;
      warning = if (not (leb end now) && not (v.warning == "")) || w == "" then v.warning else w;
    }

module _ (read_end : Bytes → Option ℕ) (now : ℕ) where
  -- The loop of loginEndNotices.
  unfoldable pub notices_from : Data → String → List Account → List Notice
  unfolding concerns band notice_of
  notices_from d person_id [] = []
  notices_from d person_id (a ∷ accounts) =
      let rest = notices_from d person_id accounts in
      if concerns d a person_id
      then elim (login_end read_end a) [
        | none ↦ rest
        | some end ↦ if band end now == "" then rest else notice_of now a end ∷ rest
      ]
      else rest

  unfoldable pub login_end_notices : String → Data → List Notice
  unfolding notices_from
  login_end_notices person_id d = notices_from d person_id d.accounts

  unfoldable pub login_ended : Account → Bool
  login_ended a = elim (login_end read_end a) [ none ↦ false | some end ↦ leb end now ]

  -- The loop of applyLoginEnds; of two views with one id it takes the last.
  unfoldable pub ends_from : List Account → List View → List View
  unfolding with_end
  ends_from [] views = views
  ends_from (a ∷ accounts) views = elim (last_index? (λ v. v.id == a.id) views) [
    | none ↦ ends_from accounts views
    | some i ↦ elim (login_end read_end a) [
      | none ↦ ends_from accounts views
      | some end ↦ elim (get_elem? views i) [
        | none ↦ ends_from accounts views
        | some v ↦ ends_from accounts (set views i (with_end end now v))
      ]
    ]
  ]

  unfoldable pub apply_login_ends : Data → List View → List View
  unfolding ends_from
  apply_login_ends d views = ends_from d.accounts views

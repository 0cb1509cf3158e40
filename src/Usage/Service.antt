-- ===== src/Usage/Service.antt =====
-- internal/usage/service.go and store.go: the cache of the snapshots, and how long Anthropic is left alone.
-- The texts of the cards are values here; a cache path is set.
use clawdh.Base.{
  ℕ, ◌+◌, ◌*◌, String, List, [], ◌∷◌, Option, none, some, Bool, not, ◌&&◌, ◌||◌, ltb, leb, is_zero,
  if◌then◌else◌, lookup, put, delete, second, minute, hour,
}
use clawdh.Usage.Client.{
  Report, Credentials, Fetched, read, rejected, limited, unread, without_session,
}

pub data State : Type 0 where
  linked : State
  signed_out : State
  expired : State
  unknown : State

-- Error: what the card says, with the instants that it names.
pub data Remark : Type 0 where
  nothing : Remark
  not_signed_in : Remark
  unreadable_login : Remark
  login_expired : Remark
  next_run : Option ℕ → Remark
  paused : ℕ → Option ℕ → Remark
  login_rejected : Remark
  no_numbers : Option ℕ → Remark
  interrupted : Remark

pub record SessionInfo : Type 0 where
  pub access_expires_at : ℕ
  pub session_expires_at : ℕ
  pub plan : String
  pub rate_limit_tier : String

pub record Snapshot : Type 0 where
  pub state : State
  pub usage : Option Report
  pub error : Remark
  pub note : String
  pub session : Option SessionInfo

pub record Cooldown : Type 0 where
  pub until : ℕ
  pub step : ℕ
  pub failed_at : ℕ

pub record CacheEntry : Type 0 where
  pub snapshot : Snapshot
  pub at : ℕ
  pub ttl : ℕ

-- Service, with the file of the last good numbers; `inflight` has the accounts that are being read.
pub record Service : Type 0 where
  pub entries : List (String × CacheEntry)
  pub inflight : List (String × Credentials)
  pub cooldowns : List (String × Cooldown)
  pub last_report : List (String × Report)
  pub saved : List (String × Report)

abbrev pub full_ttl : ℕ
full_ttl = minute

abbrev pub short_ttl : ℕ
short_ttl = 10 * second

abbrev pub expire_floor : ℕ
expire_floor = 15 * second

abbrev pub backoff_first : ℕ
backoff_first = minute

abbrev pub backoff_max : ℕ
backoff_max = 5 * minute

abbrev pub stale_report_age : ℕ
stale_report_age = 6 * hour

-- tooOld, of a report that there is.
unfoldable pub too_old : ℕ → Report → Bool
too_old now r = ltb (r.fetched_at + stale_report_age) now

-- loadReports, of what the file holds.
unfoldable pub load_reports :
    ℕ → List (String × Report) → List (String × Report) → List (String × Report)
unfolding too_old
load_reports now [] m = m
load_reports now ((id, r) ∷ rest) m =
    if too_old now r
    then load_reports now rest m
    else load_reports now rest (put id (record r { limits = without_session r.limits }) m)

-- saveReports; `writes` says whether the file could be written.
unfoldable pub save_reports : Bool → Service → Service
save_reports writes s = if writes then record s { saved = s.last_report } else s

unfoldable pub forget : Bool → String → Service → Service
unfolding save_reports
forget writes id s = save_reports writes (record s {
  entries = delete id s.entries;
  last_report = delete id s.last_report;
  cooldowns = delete id s.cooldowns;
})

unfoldable pub expire : ℕ → String → Service → Service
expire now id s = elim (lookup id s.entries) [
  | none ↦ s
  | some e ↦ if leb (e.at + expire_floor) now then record s { entries = delete id s.entries } else s
]

-- waiting: the end of the cooldown that runs, or 0.
unfoldable pub waiting : ℕ → String → Service → ℕ
waiting now id s = elim (lookup id s.cooldowns) [
  | none ↦ 0
  | some c ↦ if ltb now c.until then c.until else 0
]

unfoldable pub last_good : ℕ → String → Service → Option Report
unfolding too_old
last_good now id s = elim (lookup id s.last_report) [
  | none ↦ none
  | some r ↦ if too_old now r then none else some r
]

-- The step that follows a cooldown. A cooldown that there is not has the zero values.
unfoldable pub no_cooldown : Cooldown
no_cooldown = record { until = 0; step = 0; failed_at = 0 }

unfoldable pub cooldown_of : String → Service → Cooldown
unfolding no_cooldown
cooldown_of id s = elim (lookup id s.cooldowns) [ some c ↦ c | none ↦ no_cooldown ]

-- When Anthropic could next have been asked.
unfoldable pub free_at : Cooldown → ℕ
free_at c = let held = c.failed_at + full_ttl in if ltb c.until held then held else c.until

unfoldable pub next_step : ℕ → ℕ → Cooldown → ℕ
unfolding free_at
next_step now after c =
    let step =
      if is_zero c.step || ltb (free_at c + c.step) now
      then backoff_first
      else if ltb c.step backoff_max
      then c.step * 2
      else c.step in
    let capped = if ltb backoff_max step then backoff_max else step in
    if ltb capped after then after else capped

unfoldable pub refused : ℕ → ℕ → String → Service → ℕ × Service
unfolding next_step cooldown_of
refused now after id s =
    let step = next_step now after (cooldown_of id s) in
    (
      now + step,
      record s {
        cooldowns = put id (record { until = now + step; step = step; failed_at = 0 }) s.cooldowns;
      },
    )

unfoldable pub allowed : Bool → String → Report → Service → Service
unfolding save_reports
allowed writes id r s =
    save_reports writes
      (record s { cooldowns = delete id s.cooldowns; last_report = put id r s.last_report })

unfoldable pub failed : ℕ → String → Service → Service
failed now id s = elim (lookup id s.cooldowns) [
  | none ↦ s
  | some c ↦ record s { cooldowns = put id (record c { failed_at = now }) s.cooldowns }
]

-- What ReadCredentials gives.
pub data Login : Type 0 where
  missing : Login
  unreadable : Login
  present : Credentials → Login

unfoldable pub session_info : Credentials → SessionInfo
session_info c = record {
  access_expires_at = c.expires_at;
  session_expires_at = c.refresh_expires_at;
  plan = c.subscription_type;
  rate_limit_tier = c.rate_limit_tier;
}

unfoldable pub plain : Credentials → Snapshot
unfolding session_info
plain c = record {
  state = linked;
  usage = none;
  error = nothing;
  note = "";
  session = some (session_info c);
}

unfoldable pub without_login : State → Remark → Snapshot
without_login state error = record {
  state = state;
  usage = none;
  error = error;
  note = "";
  session = none;
}

-- A snapshot and how long it may be reused, or a request to Anthropic.
pub data Prepared : Type 0 where
  shows : Snapshot → ℕ → Prepared
  asks : Credentials → Prepared

-- The card of a login that the gateway holds.
unfoldable pub from_gateway : Snapshot → Report × String → Snapshot
from_gateway p (r, note) = record p { usage = some r; note = note }

unfoldable pub fetched_at_of : Option Report → Option ℕ
fetched_at_of none = none
fetched_at_of (some r) = some r.fetched_at

-- The card that the gateway gives, if it does, and else another.
unfoldable pub gateway_or : Option (Report × String) → Snapshot → Snapshot → Prepared
unfolding from_gateway
gateway_or (some g) p other = shows (from_gateway p g) short_ttl
gateway_or none p other = shows other short_ttl

-- The part of fetch before the request, on a login that was read. `gateway` is what gatewayReading gives.
unfoldable pub prepare_login :
    ℕ → Option (Report × String) → String → Credentials → Service → Prepared
unfolding plain gateway_or last_good waiting fetched_at_of
prepare_login now gateway id c s =
    let p = plain c in
    let last = last_good now id s in
    if not (is_zero c.refresh_expires_at) && ltb c.refresh_expires_at now
    then gateway_or gateway p (record p { state = expired; error = login_expired })
    else if not (is_zero c.expires_at) && leb c.expires_at now
    then gateway_or gateway p (record p { usage = last; error = next_run (fetched_at_of last) })
    else if not (is_zero (waiting now id s))
    then shows (record p { usage = last; error = paused (waiting now id s) (fetched_at_of last) })
        short_ttl
    else asks c

unfoldable pub prepare : ℕ → Option (Report × String) → String → Login → Service → Prepared
unfolding prepare_login without_login
prepare now gateway id missing s = shows (without_login signed_out not_signed_in) short_ttl
prepare now gateway id unreadable s = shows (without_login unknown unreadable_login) short_ttl
prepare now gateway id (present c) s = prepare_login now gateway id c s

-- The part of fetch behind Client.Fetch.
unfoldable pub conclude :
    ℕ
    → Bool
    → Option (Report × String)
    → String
    → Credentials
    → Fetched
    → Service
    → (Snapshot × ℕ) × Service
unfolding plain from_gateway last_good fetched_at_of refused allowed failed
conclude now writes gateway id c (read r) s =
    ((record (plain c) { usage = some r }, full_ttl), allowed writes id r s)
conclude now writes gateway id c rejected s = elim gateway [
  | some g ↦ ((from_gateway (plain c) g, short_ttl), s)
  | none ↦
      ((record (plain c) { state = expired; error = login_rejected }, full_ttl), failed now id s)
]
conclude now writes gateway id c (limited after) s =
    let (until, t) = refused now after id s in
    (
      (
        record (plain c) {
          usage = last_good now id s;
          error = paused until (fetched_at_of (last_good now id s));
        },
        short_ttl,
      ),
      t,
    )
conclude now writes gateway id c (unread unsent) s =
    let card = record (plain c) {
      state = unknown;
      usage = last_good now id s;
      error = no_numbers (fetched_at_of (last_good now id s));
    } in
    if unsent then ((card, short_ttl), s) else ((card, full_ttl), failed now id s)

-- ===== src/Usage/Client.antt =====
-- internal/usage/client.go and credentials.go: a report from the answer of the usage endpoint, and the stored
-- login. A percentage counts in some fixed fraction of a percent; strconv.Atoi, http.ParseTime, time.Parse
-- and the JSON decoder are fields of the readers. An instant is 0 where Go's is the zero time.
use Prim.Native.Char.{code}
use Prim.Native.Nat.{◌^◌}
use clawdh.Base.{
  ℕ, ◌-◌, ◌*◌, ◌%◌, ltb, String, List, ◌++◌, Option, none, some, Bool, false, not, ◌||◌, ◌==◌, ◌<>◌,
  nat_eq, if◌then◌else◌, filter, map, second, trim_space,
}

pub record Limit : Type 0 where
  pub kind : String
  pub group : String
  pub label : String
  pub percent : ℕ
  pub severity : String
  pub resets_at : Option ℕ
  pub active : Bool

pub record Report : Type 0 where
  pub limits : List Limit
  pub fetched_at : ℕ
  pub plan : String
  pub extra_usage : Bool

-- apiResponse, with the model's name empty where the scope or the model is missing.
pub record ApiLimit : Type 0 where
  pub kind : String
  pub group : String
  pub percent : ℕ
  pub severity : String
  pub resets_at : Option String
  pub is_active : Bool
  pub model : String

pub record ApiResponse : Type 0 where
  pub limits : List ApiLimit
  pub extra_usage : Bool

pub record Credentials : Type 0 where
  pub access_token : String
  pub expires_at : ℕ
  pub refresh_expires_at : ℕ
  pub subscription_type : String
  pub rate_limit_tier : String

-- strconv.Atoi's integers.
pub data Whole : Type 0 where
  plus : ℕ → Whole
  minus : ℕ → Whole

pub record Readers : Type 0 where
  pub atoi : String → Option Whole
  pub parse_http_time : String → Option ℕ
  pub parse_rfc3339 : String → Option ℕ
  pub decode : String → Option ApiResponse

-- What http.Client gives: an error, which says whether it came before the request left, or an answer.
pub data Answer : Type 0 where
  unreachable : Bool → Answer
  answered : ℕ → String → String → Answer  -- the status, Retry-After and the body

-- What Client.Fetch returns.
pub data Fetched : Type 0 where
  read : Report → Fetched
  rejected : Fetched  -- ErrLoginRejected
  limited : ℕ → Fetched  -- RateLimited
  unread : Bool → Fetched  -- any other error, and whether the request was never sent

unfoldable pub with_spaces : String → String
with_spaces String.[] = ""
with_spaces (String.◌∷◌ c s) =
    (if nat_eq (code c) b'_' then " " else String.◌∷◌ c "") <> with_spaces s

unfoldable pub label_for : String → String → String
unfolding with_spaces
label_for kind model =
    if kind == "weekly_all"
    then "This week, all models"
    else if kind == "weekly_scoped"
    then if not (model == "") then "This week, " <> model else "This week, one model"
    else if not (model == "")
    then with_spaces kind <> ", " <> model
    else with_spaces kind

unfoldable pub is_session : Limit → Bool
is_session l = l.kind == "session"

unfoldable pub without_session : List Limit → List Limit
unfolding is_session
without_session limits = filter (λ l. not (is_session l)) limits

unfoldable pub is_weekly : Limit → Bool
is_weekly l = l.group == "weekly"

-- sort.SliceStable by groupRank, which has two values.
unfoldable pub by_group : List Limit → List Limit
unfolding is_weekly
by_group limits = filter is_weekly limits ++ filter (λ l. not (is_weekly l)) limits

-- `time.Duration(seconds) * time.Second` is an int64; what wraps to a negative wait is 0 here, which is treated
-- like one: neither is longer than a step of the wait.
unfoldable pub seconds_long : ℕ → ℕ
seconds_long n = let w = n * second % 2 ^ 64 in if ltb w (2 ^ 63) then w else 0

unfoldable pub retry_after : Readers → ℕ → String → ℕ
unfolding seconds_long
retry_after p now header =
    let h = trim_space header in
    if h == "" then 0 else elim (p.atoi h) [
      | some (plus n) ↦ seconds_long n
      | some (minus n) ↦ 0
      | none ↦ elim (p.parse_http_time h) [ some at ↦ at - now | none ↦ 0 ]
    ]

unfoldable pub resets : Readers → Option String → Option ℕ
resets p none = none
resets p (some text) = if text == "" then none else p.parse_rfc3339 text

unfoldable pub limit_of : Readers → ApiLimit → Limit
unfolding label_for resets
limit_of p l = record {
  kind = l.kind;
  group = l.group;
  label = label_for l.kind l.model;
  percent = l.percent;
  severity = l.severity;
  resets_at = resets p l.resets_at;
  active = l.is_active;
}

unfoldable pub report_of : Readers → ℕ → Credentials → ApiResponse → Report
unfolding limit_of by_group
report_of p now creds r = record {
  limits = by_group (map (limit_of p) (filter (λ l. not (l.kind == "session")) r.limits));
  fetched_at = now;
  plan = creds.subscription_type;
  extra_usage = r.extra_usage;
}

-- Client.Fetch, from the answer on.
unfoldable pub fetched : Readers → ℕ → Credentials → Answer → Fetched
unfolding retry_after report_of
fetched p now creds (unreachable unsent) = unread unsent
fetched p now creds (answered status header body) =
    if nat_eq status 401 || nat_eq status 403
    then rejected
    else if nat_eq status 429
    then limited (retry_after p now header)
    else if not (nat_eq status 200)
    then unread false
    else elim (p.decode body) [ some r ↦ read (report_of p now creds r) | none ↦ unread false ]

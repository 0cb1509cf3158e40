-- ===== src/Tests/Usage.antt =====
-- internal/usage: one account, asked for, refused and asked for again.
use clawdh.Base.{
  String, Option, equal_fold, ℕ, ◌+◌, ◌*◌, ◌≤◌, ◌≡◌, refl, max, [], ◌∷◌, none, some, true, false,
  ◌==◌, All, inr, subst, second, minute, hour,
}
use native.Mathlib.Omega.{arith}
use clawdh.Usage.Client.{Report, Credentials, read, limited}
use clawdh.Usage.Gateway.{ShareWindow, window_report, gateway_usage_for}
use clawdh.Usage.Service.{Service, present, plain, refused, backoff_max}
use clawdh.Usage.Steps.{begin_get, Event, begins, ends, expires, step, steps, requests}
use clawdh.Usage.Waits.{refused-bounds}
use clawdh.Usage.Quiet.{Spares, Keeps}
use clawdh.Usage.Left.{requests_after_refusal, requests_after_answer, is_heard}
use clawdh.Usage.Ages.{IsRecent, IsHooked, begin_get_fresh}

abbrev login : Credentials
login = record {
  access_token = "t";
  expires_at = 100 * hour;
  refresh_expires_at = 900 * hour;
  subscription_type = "max";
  rate_limit_tier = "";
}

abbrev empty : Service
empty = record { entries = []; inflight = []; cooldowns = []; last_report = []; saved = [] }

abbrev get : ℕ → Event
get now = begins now false none "work" (present login)

-- A request is under way.
abbrev asking : Service
asking = record empty { inflight = ("work", login) ∷ [] }

asks_once : requests (get (10 * hour) ∷ get (10 * hour + second) ∷ []) empty ≡ "work" ∷ []
unfolding requests step
asks_once = refl

asks_first : step (get (10 * hour)) empty ≡ asking
unfolding step
asks_first = refl

requests_after_refusal_example :
    All
      (λ j. (j == "work") ≡ false)
      (requests
        (get (10 * hour + 30 * second)
          ∷ expires (10 * hour + 31 * second) "work"
          ∷ get (10 * hour + 32 * second)
          ∷ [])
        (step (ends (10 * hour) false true none "work" (limited 0)) asking))
unfolding Spares refused
requests_after_refusal_example =
    requests_after_refusal
      (get (10 * hour + 30 * second)
        ∷ expires (10 * hour + 31 * second) "work"
        ∷ get (10 * hour + 32 * second)
        ∷ [])
      (10 * hour) 0 false true none "work" login asking refl (omega arith, (tt, (omega arith, tt)))

abbrev report : Report
report = record { limits = []; fetched_at = 10 * hour; plan = "max"; extra_usage = false }

requests_after_answer_example :
    All
      (λ j. (j == "work") ≡ false)
      (requests
        (expires (10 * hour + 14 * second) "work" ∷ get (10 * hour + 59 * second) ∷ [])
        (step (ends (10 * hour) false true none "work" (read report)) asking))
unfolding Spares Keeps is_heard
requests_after_answer_example =
    requests_after_answer
      (expires (10 * hour + 14 * second) "work" ∷ get (10 * hour + 59 * second) ∷ []) (10 * hour)
      true none "work" login (read report) asking refl refl (tt, (omega arith, tt))
      (inr (omega arith), (tt, tt))

refused-bounds_example :
    (12 * hour + minute ≤ (refused (12 * hour) 0 "work" (steps (get (10 * hour) ∷ []) empty)).0)
    × (12 * hour + 0 ≤ (refused (12 * hour) 0 "work" (steps (get (10 * hour) ∷ []) empty)).0)
    × ((refused (12 * hour) 0 "work" (steps (get (10 * hour) ∷ []) empty)).0
        ≤ 12 * hour + max backoff_max 0)
refused-bounds_example =
    refused-bounds (get (10 * hour) ∷ []) (12 * hour) 0 "work" empty (λ id c e. cc)

-- A reading that the gateway took twenty hours ago.
abbrev window : ShareWindow
window = record {
  email = "a@b.c";
  seven_d = 70;
  seven_d_reset = none;
  updated_at = 10 * hour;
  models = [];
}

abbrev reading : Option (Report × String)
reading = gateway_usage_for 1 (30 * hour) "a@b.c" (window ∷ [])

abbrev lapsed : Credentials
lapsed = record login { expires_at = 20 * hour }

begin_get_fresh_example : 30 * hour ≤ (window_report 1 window).fetched_at + (24 * hour + minute)
unfolding steps step IsRecent IsHooked begin_get gateway_usage_for window_report equal_fold
begin_get_fresh_example =
    begin_get_fresh (get (10 * hour) ∷ ends (10 * hour) false true none "work" (read report) ∷ [])
      (30 * hour) false reading "work" (present lapsed) empty
      (record (plain lapsed) { usage = some (window_report 1 window); note = "" })
      (window_report 1 window) refl ((1, "", [], refl), (((1, "", [], refl), recent), tt))
      (1, "a@b.c", window ∷ [], refl) refl refl
  where
    recent : (r : Report) → read report ≡ read r → 10 * hour ≤ r.fetched_at + minute
    recent r e =
        let same : report ≡ r = cc in
        subst (λ x. 10 * hour ≤ x.fetched_at + minute) same (omega arith)

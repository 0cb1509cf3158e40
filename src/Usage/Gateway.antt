-- ===== src/Usage/Gateway.antt =====
-- internal/httpserver/gateway_usage.go: the reading that the usage service takes from the gateway. The windows are
-- the ones that the last check-in has cached (panel.LoadWindows), and the email is the identity of the login, empty
-- where it has none. A percentage counts in some fixed fraction of a percent, `point` of them; the rounding
-- of floats is left out.
use clawdh.Base.{
  ℕ, ◌+◌, ◌*◌, ◌<◌, ◌≡◌, inl, inr, subst, String, List, ◌∷◌, map, Option, none, some, Option-cases,
  Bool-cases, Bool, true, false, ◌&&◌, ◌==◌, ltb, leb, hour, equal_fold, find?, find?-passes, arith,
  if◌then◌else◌,
}
use mathlib.Core.Option.{some-injective}
use clawdh.Usage.Client.{Limit, Report}

abbrev pub window_stale_after : ℕ
window_stale_after = 24 * hour

pub record ModelWindow : Type 0 where
  pub label : String
  pub percent : ℕ
  pub resets_at : Option ℕ

-- The fields of a ShareWindow that the reading takes.
pub record ShareWindow : Type 0 where
  pub email : String
  pub seven_d : ℕ
  pub seven_d_reset : Option ℕ
  pub updated_at : ℕ
  pub models : List ModelWindow

module _ (point : ℕ) where
  unfoldable pub severity_for : ℕ → String
  severity_for percent =
      if leb (95 * point) percent
      then "critical"
      else if leb (75 * point) percent
      then "warning"
      else "normal"

  unfoldable pub model_limit : ModelWindow → Limit
  unfolding severity_for
  model_limit m = record {
    kind = "weekly_scoped";
    group = "weekly";
    label = m.label;
    percent = m.percent;
    severity = severity_for m.percent;
    resets_at = m.resets_at;
    active = true;
  }

  -- windowReport
  unfoldable pub window_report : ShareWindow → Report
  unfolding severity_for model_limit
  window_report w = record {
    limits =
        record {
          kind = "weekly_all";
          group = "weekly";
          label = "This week, all models";
          percent = w.seven_d;
          severity = severity_for w.seven_d;
          resets_at = w.seven_d_reset;
          active = true;
        }
        ∷ map model_limit w.models;
    fetched_at = w.updated_at;
    plan = "";
    extra_usage = false;
  }

  -- A cached reading of the login that is not stale.
  unfoldable pub serves_login : ℕ → String → ShareWindow → Bool
  serves_login now email w = equal_fold w.email email && ltb now (w.updated_at + window_stale_after)

  -- gatewayUsageFor
  unfoldable pub gateway_usage_for : ℕ → String → List ShareWindow → Option (Report × String)
  unfolding window_report serves_login
  gateway_usage_for now email windows =
      if email == "" then none else elim (find? (serves_login now email) windows) [
        | none ↦ none
        | some w ↦ some (window_report w, "")
      ]

  -- What the hook gives was read within a day.
  pub gateway_usage_for-fetched_at :
      (now : ℕ) (email : String) (windows : List ShareWindow) (r : Report) (note : String)
      → gateway_usage_for now email windows ≡ some (r, note)
      → now < r.fetched_at + window_stale_after
  unfolding gateway_usage_for serves_login window_report
  gateway_usage_for-fetched_at now email windows r note e = elim (Bool-cases (email == "")) [
    | inl nobody ↦
        let bad : Path (Option (Report × String)) none (some (r, note)) =
          rw (gateway_usage_for, nobody) at e in
        cc
    | inr known ↦ elim (Option-cases (find? (serves_login now email) windows)) [
      | inl n ↦
          let bad : Path (Option (Report × String)) none (some (r, note)) =
            rw (gateway_usage_for, known, n) at e in
          cc
      | inr (w, n) ↦
          let same : (window_report w, "") ≡ (r, note) =
            some-injective (window_report w, "") (r, note)
              (rw (gateway_usage_for, known, n) at e) in
          let young : serves_login now email w ≡ true =
            find?-passes (serves_login now email) windows n in
          subst (λ x. now < (x.0).fetched_at + window_stale_after) same (ground (arith, young))
    ]
  ]

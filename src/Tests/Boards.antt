-- ===== src/Tests/Boards.antt =====
-- panel/limits.go and panel/builds.go: what the panel's boards say.
use clawdh.Base.{
  ℕ, ◌+◌, ◌*◌, ◌≤◌, ◌<◌, ◌≡◌, refl, String, List, [], ◌∷◌, some, false, get_elem?, filter, length,
  All, minute, hour,
}
use clawdh.Panel.Model.{Device, Share, Data, live}
use clawdh.Panel.Calls.{empty_panel}
use clawdh.Panel.Limits.{Limit, AccountWindow, by_account, ceiling_window}
use clawdh.Panel.Limits.Fullest.{Counts, ceiling_window_lem}
use clawdh.Panel.Updates.{count_of, newest_build, not_updating}
use clawdh.Panel.Updates.Newest.{runs, IsNewest}
use clawdh.Panel.Updates.Behind.{IsNamed, not_updating_lem}

abbrev share_of : String → Share
share_of account_id = record {
  id = "s";
  account_id = account_id;
  person_id = "bob";
  key_hash = "k";
  sealed_key = [];
  created_at = 0;
  expires_at = 0;
  granted_by = "ann";
}

abbrev machine : String → String → Device
machine id version = record {
  id = id;
  person_id = "bob";
  name = id;
  token_hash = "";
  enrolled_at = 0;
  last_seen = 9 * hour;
  remote = false;
  version = version;
  update_error = "";
}

abbrev panel : Data
panel = record empty_panel {
  shares = share_of "a1" ∷ share_of "a2" ∷ [];
  devices = machine "m1" "v2" ∷ machine "m2" "v1" ∷ machine "m3" "v2" ∷ [];
}

abbrev window : String → ℕ → AccountWindow
window account_id seven_d = record { account_id = account_id; seven_d = seven_d; seven_d_reset = 0 }

abbrev windows : List AccountWindow
windows = window "a1" 300_000 ∷ window "a2" 700_000 ∷ []

abbrev ceiling : Limit
ceiling = record { id = "l"; subject_type = "person"; subject_id = "bob"; max_percent = 600_000 }

ceiling_window_lem_example :
    (w : AccountWindow) × (ceiling_window panel windows 5 ceiling ≡ some w)
    × (300_000 ≤ w.seven_d)
    × ((j : ℕ) × (other : Share) × (get_elem? panel.shares j ≡ some other)
        × Counts windows "bob" 5 other w)
unfolding live by_account
ceiling_window_lem_example =
    ceiling_window_lem panel windows 5 ceiling 0 (share_of "a1") (window "a1" 300_000) refl refl
      (refl, refl, refl)

abbrev first_seen : List (String × ℕ)
first_seen = ("v1", hour) ∷ ("v2", 3 * hour) ∷ []

names_one : not_updating first_seen panel (9 * hour + minute) ≡ "m2" ∷ []
unfolding not_updating
names_one = refl

not_updating_lem_example :
    All
      (λ id.
        IsNamed first_seen
          (9 * hour + minute)
          (newest_build first_seen panel (9 * hour + minute))
          panel.devices
          id
        × (2
            ≤ length (
                filter
                  (runs (9 * hour + minute) (newest_build first_seen panel (9 * hour + minute)).0)
                  panel.devices))
        × (count_of (newest_build first_seen panel (9 * hour + minute)).0 first_seen
            ≡ (newest_build first_seen panel (9 * hour + minute)).1)
        × ((newest_build first_seen panel (9 * hour + minute)).1 + hour ≤ 9 * hour + minute)
        × (0 < (newest_build first_seen panel (9 * hour + minute)).1)
        × IsNewest first_seen
            (9 * hour + minute)
            panel.devices
            (newest_build first_seen panel (9 * hour + minute)).1)
      (not_updating first_seen panel (9 * hour + minute))
not_updating_lem_example = not_updating_lem first_seen panel (9 * hour + minute)

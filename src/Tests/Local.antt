-- ===== src/Tests/Local.antt =====
-- internal/accounts: a machine with two accounts of nearly the same name.
use clawdh.Base.{◌≡◌, refl, String, false, List, [], ◌∷◌, ◌++◌, trim_space, itoa}
use clawdh.Local.Names.{slugify, first_free}
use clawdh.Local.Manager.{
  Account, State, managed, credentials_only, pending, linked, slug_taken, Made, made, ok, add,
}
use clawdh.Local.Operations.{
  Call, adds, renames, sets_status, perform_all, IsDistinct, perform_all-IsDistinct, add-created,
}

slugify_email : slugify " Ehtisham@Devhouse.co " ≡ "ehtisham"
unfolding slugify trim_space
slugify_email = refl

slugify_words : slugify "--My  Work__Account 2" ≡ "my-work-account-2"
unfolding slugify trim_space
slugify_words = refl

slugify_nothing : slugify "@" ≡ "account"
unfolding slugify trim_space
slugify_nothing = refl

abbrev work : Account
work = record {
  id = "work";
  name = "Work";
  slug = "work";
  kind = managed;
  config_dir = "/accounts/work";
  isolation = credentials_only;
  alias = "claude-work";
  status = pending;
  created_at = 5;
  last_used_at = 0;
  panel_id = "";
}

abbrev machine : State
machine = record { accounts = work ∷ []; default_dismissed = false }

abbrev new_directory : String → Made
new_directory dir = made

abbrev second_work : Account
second_work = record work {
  id = "work-2";
  name = "work";
  slug = "work-2";
  config_dir = "/accounts/work-2";
  alias = "claude-work-2";
}

add_second :
    add "/accounts" new_directory 5 "work" machine
    ≡ (ok second_work, record machine { accounts = work ∷ second_work ∷ [] })
unfolding add slugify trim_space first_free itoa
add_second = refl

abbrev calls : List Call
calls =
    adds "/accounts" new_directory 5 "work"
    ∷ renames "work" "work 2"
    ∷ sets_status 6 "work" linked
    ∷ []

perform_all-IsDistinct_example : IsDistinct (perform_all calls machine)
perform_all-IsDistinct_example = perform_all-IsDistinct calls machine (tt, tt)

add-created_example :
    ((work ∷ second_work ∷ []) ≡ (work ∷ []) ++ second_work ∷ [])
    × (slug_taken "work-2" (work ∷ []) ≡ false)
    × (second_work.id ≡ second_work.slug)
    × (new_directory "work-2" ≡ made)
    × (second_work.config_dir ≡ "/accounts/work-2")
add-created_example =
    add-created "/accounts" new_directory 5 "work" machine
      (record machine { accounts = work ∷ second_work ∷ [] }) second_work add_second

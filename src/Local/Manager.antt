-- ===== src/Local/Manager.antt =====
-- internal/accounts: model.go, the accounts file of store.go (Mutate and what it writes), and the operations
-- of manager.go. A State is the accounts file; the disk enters as the outcomes of the calls that make and
-- delete directories.
use clawdh.Base.{
  ℕ, zero, suc, ◌+◌, ◌*◌, String, Bool, true, false, not, ◌&&◌, ◌||◌, ◌==◌, ◌<>◌, List, [], ◌∷◌,
  ◌++◌, length, take, drop, filter, any, index?, set, get_elem?, Option, none, some, trim_space,
  if◌then◌else◌,
}
use clawdh.Local.Names.{slugify, alias_for, numbered, first_free}

pub data Status : Type 0 where
  pending : Status
  linked : Status

pub data Kind : Type 0 where
  managed : Kind
  default : Kind

pub data Isolation : Type 0 where
  config_dir : Isolation
  credentials_only : Isolation

pub record Account : Type 0 where
  pub id : String
  pub name : String
  pub slug : String
  pub kind : Kind
  pub config_dir : String
  pub isolation : Isolation
  pub alias : String
  pub status : Status
  pub created_at : ℕ
  pub last_used_at : ℕ
  pub panel_id : String

-- fileFormat
pub record State : Type 0 where
  pub accounts : List Account
  pub default_dismissed : Bool

unfoldable pub is_default : Account → Bool
is_default a = elim a.kind [ default ↦ true | managed ↦ false ]

unfoldable pub owns_config_dir : Account → Bool
unfolding is_default
owns_config_dir a = not (is_default a) && not (a.config_dir == "")

unfoldable pub slug_taken : String → List Account → Bool
slug_taken slug existing = any (λ a. a.slug == slug || a.id == slug) existing

unfoldable pub alias_taken : String → List Account → Bool
alias_taken alias existing = any (λ a. a.alias == alias) existing

-- The loops take at most a step for each name that is there, and one more.
unfoldable pub unique_slug : String → List Account → String
unfolding slug_taken
unique_slug base existing =
    first_free (λ c. slug_taken c existing) base (suc (2 * length existing)) 2 base

unfoldable pub unique_alias : String → List Account → String
unfolding alias_taken
unique_alias base existing =
    first_free (λ c. alias_taken c existing) base (suc (length existing)) 2 base

-- What making a directory comes to; `failed` is any error but that it exists.
pub data Made : Type 0 where
  made : Made
  exists : Made
  failed : Made

-- The errors of the operations.
pub data Failure : Type 0 where
  empty_name : Failure
  no_directory : Failure
  no_account : Failure
  directory_left : Failure

pub data Result (A : Type 0) : Type 0 where
  ok : A → Result A
  error : Failure → Result A

-- The loop of Add: the attempts that `attempt > 50` leaves, and the number of the next one.
unfoldable pub provision : (String → Made) → String → List Account → ℕ → ℕ → String → Option String
unfolding unique_slug
provision mkdir base existing zero attempt slug = none
provision mkdir base existing (suc left) attempt slug = elim (mkdir slug) [
  | made ↦ some slug
  | failed ↦ none
  | exists ↦
      provision mkdir base existing left (suc attempt)
        (unique_slug (numbered base (attempt + 2)) existing)
]

abbrev pub attempts : ℕ
attempts = 52

-- The account that Add puts on the list.
unfoldable pub new_account : String → ℕ → String → List Account → String → Account
unfolding unique_alias
new_account accounts_dir now name existing slug = record {
  id = slug;
  name = name;
  slug = slug;
  kind = managed;
  config_dir = accounts_dir <> ("/" <> slug);
  isolation = credentials_only;
  alias = unique_alias (alias_for slug) existing;
  status = pending;
  created_at = now;
  last_used_at = 0;
  panel_id = "";
}

-- Manager.Add
unfoldable pub add : String → (String → Made) → ℕ → String → State → Result Account × State
unfolding provision unique_slug new_account
add accounts_dir mkdir now name s =
    if trim_space name == ""
    then (error empty_name, s)
    else elim (provision mkdir (slugify (trim_space name)) s.accounts attempts 0
        (unique_slug (slugify (trim_space name)) s.accounts)) [
          | none ↦ (error no_directory, s)
          | some slug ↦
              let created = new_account accounts_dir now (trim_space name) s.accounts slug in
              (ok created, record s { accounts = s.accounts ++ created ∷ [] })
        ]

-- The loop over the list that changes the first account with the id.
unfoldable pub change : String → (Account → Account) → State → Result Account × State
change id f s = elim (index? (λ a. a.id == id) s.accounts) [
  | none ↦ (error no_account, s)
  | some i ↦ elim (get_elem? s.accounts i) [
    | none ↦ (error no_account, s)
    | some a ↦ (ok (f a), record s { accounts = set s.accounts i (f a) })
  ]
]

-- `append(list[:i], list[i+1:]...)`
unfoldable pub without : ℕ → List Account → List Account
without i list = take i list ++ drop (suc i) list

-- Manager.Rename
unfoldable pub rename : String → String → State → Result Account × State
unfolding unique_alias without
rename id name s =
    if trim_space name == ""
    then (error empty_name, s)
    else elim (index? (λ a. a.id == id) s.accounts) [
      | none ↦ (error no_account, s)
      | some i ↦ elim (get_elem? s.accounts i) [
        | none ↦ (error no_account, s)
        | some a ↦
            let renamed = record a {
              name = trim_space name;
              alias = unique_alias (alias_for (slugify (trim_space name))) (without i s.accounts);
            } in
            (ok renamed, record s { accounts = set s.accounts i renamed })
      ]
    ]

-- Manager.SetStatus
unfoldable pub set_status : ℕ → String → Status → State → Result Account × State
unfolding change
set_status now id linked s = change id (λ a. record a { status = linked; last_used_at = now }) s
set_status now id pending s = change id (λ a. record a { status = pending }) s

-- Manager.SetPanelID
unfoldable pub set_panel_id : String → String → State → Result Account × State
unfolding change
set_panel_id id panel_id s = change id (λ a. record a { panel_id = panel_id }) s

unfoldable pub last_with_id : String → List Account → Option Account
last_with_id id [] = none
last_with_id id (a ∷ list) =
    let rest = last_with_id id list in
    elim rest [ some b ↦ some b | none ↦ if a.id == id then some a else none ]

-- Manager.Remove; `delete` says whether the directory is gone afterwards.
unfoldable pub remove : (String → Bool) → String → State → Result Account × State
unfolding last_with_id is_default owns_config_dir
remove delete id s =
    let rest = record s { accounts = filter (λ a. not (a.id == id)) s.accounts } in
    elim (last_with_id id s.accounts) [
      | none ↦ (error no_account, rest)
      | some a ↦
          if is_default a
          then (ok a, record rest { default_dismissed = true })
          else if owns_config_dir a && not (delete a.config_dir)
          then (error directory_left, rest)
          else (ok a, rest)
    ]

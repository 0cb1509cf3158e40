-- ===== src/Local/Operations.antt =====
-- internal/accounts/manager.go: the operations one after the other.
use clawdh.Base.{
  ℕ, zero, suc, ◌≡◌, refl, sym, ap, subst, inl, inr, String, Bool, false, not, ◌&&◌, ◌==◌, ◌<>◌,
  List, [], ◌∷◌, ◌++◌, filter, index?, set, get_elem?, some, Option-cases, Bool-cases, All,
  All_mono, All-get_elem?, All-set, Pairwise, Pairwise-filter, Pairwise-append_one, trim_space,
}
use mathlib.Core.Option.{some-injective}
use clawdh.Local.Names.{slugify, alias_for}
use clawdh.Local.Manager.{
  new_account, Status, pending, linked, Account, State, slug_taken, unique_slug, unique_alias, Made,
  made, Failure, empty_name, no_directory, Result, ok, error, provision, attempts, add, change,
  without, rename, set_status, set_panel_id, remove, last_with_id, is_default,
}
use clawdh.Local.Distinct.{
  Apart, unique_slug-free, unique_alias-free, not-slug_taken, not-alias_taken, provision_lem,
}

-- The calls of a Manager, with what the disk answers.
pub data Call : Type 0 where
  adds : String → (String → Made) → ℕ → String → Call
  renames : String → String → Call
  sets_status : ℕ → String → Status → Call
  sets_panel_id : String → String → Call
  removes : (String → Bool) → String → Call

unfoldable pub perform : Call → State → State
unfolding add rename set_status set_panel_id remove
perform (adds dir mkdir now name) s = (add dir mkdir now name s).1
perform (renames id name) s = (rename id name s).1
perform (sets_status now id status) s = (set_status now id status s).1
perform (sets_panel_id id panel_id) s = (set_panel_id id panel_id s).1
perform (removes delete id) s = (remove delete id s).1

unfoldable pub perform_all : List Call → State → State
unfolding perform
perform_all [] s = s
perform_all (c ∷ calls) s = perform_all calls (perform c s)

abbrev pub IsDistinct : State → Type 0
IsDistinct s = Pairwise Apart s.accounts

module _ {P Q R : Account → Type 0} (f : (a : Account) → P a → Q a → R a) where
  All_both : (list : List Account) → All P list → All Q list → All R list
  All_both [] h k = tt
  All_both (a ∷ list) h k = (f a h.0 k.0, All_both list h.1 k.1)

Apart-sym : (a b : Account) → Apart a b → Apart b a
Apart-sym a b h =
    (λ e. h.0 (sym e), λ e. h.1 (sym e), λ e. h.3 (sym e), λ e. h.2 (sym e), λ e. h.4 (sym e))

-- A new account stands apart from the others.
new_account-Apart :
    (dir : String) (now : ℕ) (name : String) (list : List Account) (slug : String)
    → slug_taken slug list ≡ false
    → All (λ a. Apart a (new_account dir now name list slug)) list
unfolding new_account
new_account-Apart dir now name list slug free =
    All_both (λ a k l. (k.0, k.1, k.0, k.1, l)) list (not-slug_taken slug list free)
      (not-alias_taken (unique_alias (alias_for slug) list) list
        (unique_alias-free (alias_for slug) list))

-- The slug with which a search for a directory starts is free.
provision-free :
    (mkdir : String → Made) (base : String) (list : List Account) (found : String)
    → provision mkdir base list attempts 0 (unique_slug base list) ≡ some found
    → (slug_taken found list ≡ false) × (mkdir found ≡ made)
provision-free mkdir base list found e =
    provision_lem mkdir base list attempts 0 (unique_slug base list) found
      (unique_slug-free base list) e

add-IsDistinct :
    (dir : String) (mkdir : String → Made) (now : ℕ) (name : String) (s : State)
    → IsDistinct s
    → IsDistinct ((add dir mkdir now name s).1)
unfolding add
add-IsDistinct dir mkdir now name s h = elim (Bool-cases (trim_space name == "")) [
  | inl empty ↦ rw (add, empty) h
  | inr given ↦
      rw (add, given)
        (elim (Option-cases (
          provision mkdir (slugify (trim_space name)) s.accounts attempts 0
            (unique_slug (slugify (trim_space name)) s.accounts))) [
              | inl e ↦ rw e h
              | inr (slug, e) ↦ rw e (
                  Pairwise-append_one Apart s.accounts
                    (new_account dir now (trim_space name) s.accounts slug) h
                    (new_account-Apart dir now (trim_space name) s.accounts slug
                      (provision-free mkdir (slugify (trim_space name)) s.accounts slug e).0))
            ])
]

-- The account at an index stands apart from the rest, and one that does may take its place.
others-Apart :
    (list : List Account) (i : ℕ) (a : Account)
    → Pairwise Apart list
    → get_elem? list i ≡ some a
    → All (Apart a) (without i list)
unfolding without
others-Apart [] i a h e = cc
others-Apart (b ∷ list) zero a h e = subst (λ x. All (Apart x) list) (some-injective b a e) h.0
others-Apart (b ∷ list) (suc i) a h e =
    (Apart-sym b a (All-get_elem? (Apart b) list i a h.0 e), others-Apart list i a h.1 e)

set-Apart :
    (list : List Account) (i : ℕ) (v : Account)
    → Pairwise Apart list
    → All (Apart v) (without i list)
    → Pairwise Apart (set list i v)
unfolding without
set-Apart [] i v h k = tt
set-Apart (b ∷ list) zero v h k = (k, h.1)
set-Apart (b ∷ list) (suc i) v h k =
    (All-set (Apart b) list i v h.0 (Apart-sym v b k.0), set-Apart list i v h.1 k.1)

change-IsDistinct :
    (id : String) (f : Account → Account) (s : State)
    → ((a b : Account) → Apart a b → Apart (f a) b)
    → IsDistinct s
    → IsDistinct ((change id f s).1)
unfolding change
change-IsDistinct id f s keeps h = elim (Option-cases (index? (λ a. a.id == id) s.accounts)) [
  | inl e ↦ rw (change, e) h
  | inr (i, e) ↦
      rw (change, e)
        (elim (Option-cases (get_elem? s.accounts i)) [
          | inl g ↦ rw g h
          | inr (a, g) ↦ rw g (
              set-Apart s.accounts i (f a) h (
                All_mono (Apart a) (Apart (f a)) (keeps a) (without i s.accounts)
                  (others-Apart s.accounts i a h g)))
        ])
]

rename-IsDistinct :
    (id name : String) (s : State) → IsDistinct s → IsDistinct ((rename id name s).1)
unfolding rename
rename-IsDistinct id name s h = elim (Bool-cases (trim_space name == "")) [
  | inl empty ↦ rw (rename, empty) h
  | inr given ↦
      rw (rename, given)
        (elim (Option-cases (index? (λ a. a.id == id) s.accounts)) [
          | inl e ↦ rw e h
          | inr (i, e) ↦ rw e (elim (Option-cases (get_elem? s.accounts i)) [
            | inl g ↦ rw g h
            | inr (a, g) ↦
                let alias =
                  unique_alias (alias_for (slugify (trim_space name))) (without i s.accounts) in
                rw g (
                  set-Apart s.accounts i (record a { name = trim_space name; alias = alias }) h
                    (All_both (λ b k l. (k.0, k.1, k.2, k.3, λ q. l (sym q))) (without i s.accounts)
                      (others-Apart s.accounts i a h g)
                      (not-alias_taken alias (without i s.accounts) (
                        unique_alias-free (alias_for (slugify (trim_space name)))
                          (without i s.accounts)))))
          ])
        ])
]

remove-accounts :
    (delete : String → Bool) (id : String) (s : State)
    → ((remove delete id s).1).accounts ≡ filter (λ a. not (a.id == id)) s.accounts
unfolding remove
remove-accounts delete id s = elim (Option-cases (last_with_id id s.accounts)) [
  | inl e ↦ rw (remove, e) refl
  | inr (a, e) ↦
      rw (remove, e)
        (elim (Bool-cases (is_default a)) [
          | inl y ↦ rw y refl
          | inr n ↦
              rw n (elim (Bool-cases (not (a.config_dir == "") && not (delete a.config_dir))) [
                | inl left ↦ rw left refl
                | inr gone ↦ rw gone refl
              ])
        ])
]

perform-IsDistinct : (c : Call) (s : State) → IsDistinct s → IsDistinct (perform c s)
unfolding perform set_status set_panel_id
perform-IsDistinct (adds dir mkdir now name) s h = add-IsDistinct dir mkdir now name s h
perform-IsDistinct (renames id name) s h = rename-IsDistinct id name s h
perform-IsDistinct (sets_status now id linked) s h =
    change-IsDistinct id (λ a. record a { status = linked; last_used_at = now }) s (λ a b k. k) h
perform-IsDistinct (sets_status now id pending) s h =
    change-IsDistinct id (λ a. record a { status = pending }) s (λ a b k. k) h
perform-IsDistinct (sets_panel_id id panel_id) s h =
    change-IsDistinct id (λ a. record a { panel_id = panel_id }) s (λ a b k. k) h
perform-IsDistinct (removes delete id) s h =
    subst (Pairwise Apart) (sym (remove-accounts delete id s))
      (Pairwise-filter Apart (λ a. not (a.id == id)) s.accounts h)

-- Whatever calls are made, and whatever the disk answers, no two accounts share a slug, an id or an alias,
-- nor is the slug of one the id of another, if that is so of the file that the calls start from.
pub perform_all-IsDistinct :
    (calls : List Call) (s : State) → IsDistinct s → IsDistinct (perform_all calls s)
unfolding perform_all
perform_all-IsDistinct [] s h = h
perform_all-IsDistinct (c ∷ calls) s h =
    perform_all-IsDistinct calls (perform c s) (perform-IsDistinct c s h)

ok-injective : (a b : Account) → Path (Result Account) (ok a) (ok b) → a ≡ b
ok-injective a b h = cc

-- An account that Add returns is the last on the list that was there, under a slug and an id that no account
-- had, and its directory is the one under that slug, which Add has made and not found there.
pub add-created :
    (dir : String) (mkdir : String → Made) (now : ℕ) (name : String) (s after : State) (a : Account)
    → add dir mkdir now name s ≡ (ok a, after)
    → (after.accounts ≡ s.accounts ++ a ∷ [])
      × (slug_taken a.slug s.accounts ≡ false)
      × (a.id ≡ a.slug)
      × (mkdir a.slug ≡ made)
      × (a.config_dir ≡ dir <> ("/" <> a.slug))
unfolding add
add-created dir mkdir now name s after a e = elim (Bool-cases (trim_space name == "")) [
  | inl empty ↦
      let h : Path (Result Account × State) (error empty_name, s) (ok a, after) =
        rw (add, empty) at e in
      not_created empty_name s h
  | inr given ↦
      elim (Option-cases (
        provision mkdir (slugify (trim_space name)) s.accounts attempts 0
          (unique_slug (slugify (trim_space name)) s.accounts))) [
            | inl n ↦
                let h : Path (Result Account × State) (error no_directory, s) (ok a, after) =
                  rw (add, given, n) at e in
                not_created no_directory s h
            | inr (slug, n) ↦
                created slug (provision-free mkdir (slugify (trim_space name)) s.accounts slug n)
                  (rw (add, given, n) at e)
          ]
]
  where
    Created : Account → State → Type 0
    Created b t =
        (t.accounts ≡ s.accounts ++ b ∷ [])
        × (slug_taken b.slug s.accounts ≡ false)
        × (b.id ≡ b.slug)
        × (mkdir b.slug ≡ made)
        × (b.config_dir ≡ dir <> ("/" <> b.slug))

    not_created :
        (f : Failure) (t : State)
        → Path (Result Account × State) (error f, t) (ok a, after)
        → Created a after
    not_created f t h = let k : Path (Result Account) (error f) (ok a) = ap (λ r. r.0) h in cc

    created :
        (slug : String)
        → (slug_taken slug s.accounts ≡ false) × (mkdir slug ≡ made)
        → Path
            (Result Account × State)
            (
              ok (new_account dir now (trim_space name) s.accounts slug),
              record s {
                accounts = s.accounts ++ new_account dir now (trim_space name) s.accounts slug ∷ [];
              },
            )
            (ok a, after)
        → Created a after
    created slug k h =
        let b : Account = new_account dir now (trim_space name) s.accounts slug in
        let same : b ≡ a = ok-injective b a (ap (λ r. r.0) h) in
        subst (λ x. Created x after) same
          (subst (Created b) (ap (λ r. r.1) h) (refl, k.0, refl, k.1, refl))

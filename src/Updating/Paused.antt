-- ===== src/Updating/Paused.antt =====
-- internal/updater/updater.go: checks while GitHub refuses the API's requests.
use clawdh.Base.{
  ℕ, ◌≡◌, ◌≢◌, refl, sym, ap, subst, ◌∙◌, ◌<◌, [], ◌∷◌, ◌||◌, nat_eq, split_if, String, Option,
  none, some, Bool, true, not, ◌&&◌, ◌==◌, ltb, is_zero, if◌then◌else◌, has_prefix, lookup,
  lookup-put, Option-cases, Bool-cases, arith, inl, inr,
}
use mathlib.Core.Option.{some-injective}
use clawdh.Updating.Release.{
  Release, Web, Updater, Response, Answer, Outcome, failed, done, answered, unreachable, received,
  fetch, get, api_base_of, link, web_release, web_answer, latest_from_web, latest, asset_name,
}
use clawdh.Updating.Checksums.{read_checksums, expected_checksum}
use clawdh.Updating.Swap.{Binary, Disk}
use clawdh.Updating.Install.{Host, Machine, apply, install, compare_with, move_to, check_and_apply}

done-injective : (a b : Release) → Path (Outcome Release) (done a) (done b) → a ≡ b
done-injective a b e = cc

-- A second network, for the same program.
module _ (w : Web) (net : String → String → Answer) where
  other : Web
  other = record w { net = net }

  -- The two answer the same where the files of a release are.
  Agrees : Release → Type 0
  Agrees r = (name url : String) → lookup name r.assets ≡ some url → w.net url "" ≡ net url ""

  get-other :
      (now : ℕ) (url : String) (u : Updater)
      → w.net url "" ≡ net url ""
      → get w now url u ≡ get other now url u
  unfolding get fetch other
  get-other now url u e = rw e refl

  read_checksums-other :
      (t : Outcome (Option String) × Updater) → read_checksums w t ≡ read_checksums other t
  unfolding read_checksums asset_name other
  read_checksums-other (failed f, u) = refl
  read_checksums-other (done none, u) = refl
  read_checksums-other (done (some raw), u) = refl

  expected_checksum-other :
      (now : ℕ) (r : Release) (u : Updater)
      → Agrees r
      → expected_checksum w now r u ≡ expected_checksum other now r u
  unfolding expected_checksum Agrees
  expected_checksum-other now r u same = elim (Option-cases (lookup "checksums.txt" r.assets)) [
    | inl e ↦ rw (expected_checksum, e) refl
    | inr (url, e) ↦
        rw (expected_checksum, e, get-other now url u (same "checksums.txt" url e))
          (read_checksums-other (get other now url u))
  ]

  apply-other :
      (h : Host) (now : ℕ) (r : Release) (expected : String) (m : Machine)
      → Agrees r
      → apply w h now r expected m ≡ apply other h now r expected m
  unfolding apply asset_name other Agrees
  apply-other h now r expected m same = elim (Option-cases (lookup (asset_name w) r.assets)) [
    | inl e ↦ rw (apply, e) refl
    | inr (url, e) ↦ rw (apply, e, get-other now url m.updater (same (asset_name w) url e)) refl
  ]

  install-other :
      (h : Host) (now : ℕ) (r : Release) (b : Binary) (d : Disk) (t : Outcome String × Updater)
      → Agrees r
      → install w h now r b d t ≡ install other h now r b d t
  unfolding install
  install-other h now r b d (failed f, u) same = refl
  install-other h now r b d (done expected, u) same =
      rw (apply-other h now r expected (record { updater = u; disk = d }) same) refl

  compare_with-other :
      (h : Host) (now : ℕ) (d : Disk) (r : Release) (u : Updater) (o : Option Binary)
      → Agrees r
      → compare_with w h now d r u o ≡ compare_with other h now d r u o
  unfolding compare_with
  compare_with-other h now d r u none same = refl
  compare_with-other h now d r u (some b) same =
      rw
        (
          expected_checksum-other now r u same,
          install-other h now r b d (expected_checksum other now r u) same,
        )
        refl

  move_to-other :
      (h : Host) (now : ℕ) (d : Disk) (t : Outcome Release × Updater)
      → ((r : Release) → t.0 ≡ done r → Agrees r)
      → move_to w h now d t ≡ move_to other h now d t
  unfolding move_to
  move_to-other h now d (failed f, u) same = refl
  move_to-other h now d (done r, u) same = compare_with-other h now d r u d.binary (same r refl)

  web_answer-other : (t : Outcome Response × Updater) → web_answer w t ≡ web_answer other t
  unfolding web_answer web_release asset_name other
  web_answer-other (failed f, u) = refl
  web_answer-other (done r, u) = refl

  -- The files of the release that github.com gives.
  web_release-link :
      (u : Updater) (at : ℕ) (name url : String)
      → lookup name (web_release w u at).assets ≡ some url
      → (file : String) × (url ≡ link u file)
  unfolding web_release
  web_release-link u at name url k =
      let put_first : Path (Option String)
          (if asset_name w == name
            then some (link u (asset_name w))
            else lookup name (("checksums.txt", link u "checksums.txt") ∷ []))
          (some url) =
        sym (
          lookup-put (asset_name w) name (link u (asset_name w))
            (("checksums.txt", link u "checksums.txt") ∷ []))
        ∙ k in
      elim (Bool-cases (asset_name w == name)) [
        | inl y ↦
            (asset_name w, sym (some-injective (link u (asset_name w)) url (rw y at put_first)))
        | inr n ↦
            let second : Path (Option String)
                (if "checksums.txt" == name then some (link u "checksums.txt") else none)
                (some url) =
              rw n at put_first in
            elim (Bool-cases ("checksums.txt" == name)) [
              | inl y ↦ (
                "checksums.txt",
                sym (some-injective (link u "checksums.txt") url (rw y at second)),
              )
              | inr m ↦ let bad : Path (Option String) none (some url) = rw m at second in cc
            ]
      ]

  web_answer-link :
      (u : Updater) (t : Outcome Response × Updater) (r : Release)
      → ((name : String) → link (t.1) name ≡ link u name)
      → (web_answer w t).0 ≡ done r
      → (name url : String) → lookup name r.assets ≡ some url
      → (file : String) × (url ≡ link u file)
  unfolding web_answer
  web_answer-link u (failed f, v) r same e name url k = cc
  web_answer-link u (done a, v) r same e name url k =
      let released : web_release w v a.last_modified ≡ r =
        done-injective (web_release w v a.last_modified) r e in
      let (file, at_file) =
        web_release-link v a.last_modified name url
          (subst (λ x. lookup name x.assets ≡ some url) (sym released) k) in
      (file, at_file ∙ same file)

  received-link :
      (api : Bool) (now : ℕ) (a : Answer) (u : Updater) (name : String)
      → link ((received api now a u).1) name ≡ link u name
  unfolding received link
  received-link api now unreachable u name = refl
  received-link api now (answered r) u name =
      split_if P (nat_eq r.status 429 || (nat_eq r.status 403 && r.remaining == "0"))
        (λ y. split_if (λ v. link v name ≡ link u name) api (λ k. refl) (λ k. refl))
        (λ n.
          split_if P (not (nat_eq r.status 200) && not (nat_eq r.status 304)) (λ y. refl)
            (λ k. split_if (λ v. link v name ≡ link u name) api (λ l. refl) (λ l. refl)))
    where
      P : Outcome Response × Updater → Type 0
      P t = link (t.1) name ≡ link u name

  latest_from_web-other :
      (now : ℕ) (u : Updater)
      → w.net (link u "checksums.txt") "" ≡ net (link u "checksums.txt") ""
      → latest_from_web w now u ≡ latest_from_web other now u
  unfolding latest_from_web fetch other
  latest_from_web-other now u e =
      rw e (web_answer-other (fetch other now (link u "checksums.txt") "" u))

  agrees :
      (h : Host) (now : ℕ) (m : Machine)
      → ((file : String) → w.net (link m.updater file) "" ≡ net (link m.updater file) "")
      → (r : Release) → (latest_from_web w now m.updater).0 ≡ done r
      → Agrees r
  unfolding Agrees latest_from_web fetch
  agrees h now m same r e name url k =
      let u = m.updater in
      let (file, at_file) =
        web_answer-link u (fetch w now (link u "checksums.txt") "" u) r
          (received-link (has_prefix (link u "checksums.txt") (api_base_of u)) now
            (w.net (link u "checksums.txt") "") u)
          e name url k in
      subst (λ x. w.net x "" ≡ net x "") (sym at_file) (same file)

  -- While the API is not to be asked, what a check does depends on no answer but those to the download links
  -- of the latest release: on another network that gives the same ones, it ends the same.
  pub check_and_apply-other :
      (h : Host) (now : ℕ) (m : Machine)
      → m.updater.rate_limited_until ≢ 0
      → now < m.updater.rate_limited_until
      → ((file : String) → w.net (link m.updater file) "" ≡ net (link m.updater file) "")
      → check_and_apply w h now m ≡ check_and_apply (record w { net = net }) h now m
  unfolding check_and_apply latest other
  check_and_apply-other h now m set paused same =
      let until : (not (is_zero m.updater.rate_limited_until)
            && ltb now m.updater.rate_limited_until)
          ≡ true =
        ground arith in
      rw (check_and_apply, latest, until)
        (move_to-other h now m.disk (latest_from_web w now m.updater) (agrees h now m same)
          ∙ ap (move_to other h now m.disk)
              (latest_from_web-other now m.updater (same "checksums.txt")))

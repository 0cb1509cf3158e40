-- ===== src/Panel/People/Codes.antt =====
-- Invite codes in handleEnroll and handleRemovePerson of panel/handlers.go.
use clawdh.Base.{
  ℕ, ◌<◌, String, [], ◌∷◌, ◌++◌, ◌≡◌, refl, ap, sym, subst, ◌<>◌, ◌∙◌, Bool, true, false, not, ◌==◌,
  none, some, Option-cases, inl, inr, arith, eq_iff, get_elem?, set, get_elem?-set_self, index?,
  index?-set, find?, any, any-append_last, is_zero, ltb,
}
use clawdh.Panel.Model.{JoinCode, Data}
use clawdh.Panel.Roster.{log, person, person_name}
use clawdh.Panel.People.{
  Enrolment, machine_name, enrol, new_device, handle_enroll, handle_remove_person,
}
use clawdh.Panel.Access.{handle_remove_person-Gone}
use clawdh.Panel.Answer.{ok, refuse, Ensures, Ensures-or_refuse, Ensures-refuse_if, Ensures-ok}

-- The test of the search for a code.
abbrev pub has_hash : String → JoinCode → Bool
has_hash want c = want == c.code_hash

-- Presenting the code with this hash from now on is refused as a second use.
abbrev pub Spent : String → Data → Type 0
Spent want d =
    (e : Enrolment) (later : ℕ)
    → e.code_hash ≡ want
    → handle_enroll e later d ≡ refuse 400 "That code has already been used."

Spent-at :
    (want : String) (d : Data) (i : ℕ) (c : JoinCode)
    → index? (has_hash want) d.join_codes ≡ some i
    → get_elem? d.join_codes i ≡ some c
    → is_zero c.used_at ≡ false
    → Spent want d
unfolding handle_enroll enrol
Spent-at want d i c hi hc h e later same =
    let found : index? (has_hash e.code_hash) d.join_codes ≡ some i =
      subst (λ w. index? (has_hash w) d.join_codes ≡ some i) (sym same) hi in
    rw (found, handle_enroll) (rw (hc, handle_enroll) (rw h))

enrol-Spent :
    (e : Enrolment) (i : ℕ) (c : JoinCode) (now : ℕ) (d : Data)
    → 0 < now
    → index? (has_hash e.code_hash) d.join_codes ≡ some i
    → get_elem? d.join_codes i ≡ some c
    → Ensures (Spent e.code_hash) (enrol e i c now d)
unfolding enrol log
enrol-Spent e i c now d h hi hc =
    Ensures-refuse_if (Spent e.code_hash) (not (is_zero c.used_at)) 400 _ _ λ _.
      Ensures-refuse_if (Spent e.code_hash) (ltb c.expires_at now) 400 _ _ λ _.
        Spent-at e.code_hash _ i (record c { used_at = now })
          (index?-set (has_hash e.code_hash) d.join_codes i _ hc refl ∙ hi)
          (get_elem?-set_self d.join_codes i _ hc) (ground arith)

-- An invite code enrols one machine: after an enrolment that went through, at any instant but the
-- zero time, every other with the same code is refused as a second use, whenever it comes.
pub handle_enroll-once :
    (e : Enrolment) (now : ℕ) (d : Data)
    → 0 < now
    → Ensures (Spent e.code_hash) (handle_enroll e now d)
unfolding handle_enroll
handle_enroll-once e now d h = elim (Option-cases (index? (has_hash e.code_hash) d.join_codes)) [
  | inl f ↦ rw (f, handle_enroll) tt
  | inr (i, f) ↦
      rw (f, handle_enroll)
        (elim (Option-cases (get_elem? d.join_codes i)) [
          | inl g ↦ rw (g, handle_enroll) tt
          | inr (c, g) ↦ rw (g, handle_enroll) (enrol-Spent e i c now d h f g)
        ])
]

join_codes-remove_person :
    (who id : String) (now : ℕ) (d : Data)
    → Ensures (λ d'. d'.join_codes ≡ d.join_codes) (handle_remove_person who id now d)
unfolding handle_remove_person log
join_codes-remove_person who id now d =
    Ensures-or_refuse (λ (d' : Data). d'.join_codes ≡ d.join_codes) (person d id) 404 _ _
      λ p e. refl

enrol_good :
    (e : Enrolment) (i : ℕ) (c : JoinCode) (now : ℕ) (d : Data)
    → is_zero c.used_at ≡ true
    → ltb c.expires_at now ≡ false
    → (d' : Data) × (enrol e i c now d ≡ ok d')
      × (any (λ v. v.person_id == c.person_id) d'.devices ≡ true)
      × (d'.people ≡ d.people)
unfolding enrol log
enrol_good e i c now d u x = (
  record d {
    join_codes = set d.join_codes i (record c { used_at = now });
    devices = d.devices ++ new_device e c now ∷ [];
    activity =
        d.activity
        ++ record { at = now; who = person_name d c.person_id; what = "set up " <> machine_name e }
          ∷ [];
  },
  rw (u, x),
  any-append_last (λ v. v.person_id == c.person_id) d.devices (new_device e c now)
      (unfold new_device in (eq_iff c.person_id c.person_id).1 refl),
  refl,
)

enrolled_from :
    (e : Enrolment) (i : ℕ) (c : JoinCode) (now : ℕ) (d d' : Data)
    → d'.join_codes ≡ d.join_codes
    → index? (has_hash e.code_hash) d.join_codes ≡ some i
    → get_elem? d.join_codes i ≡ some c
    → handle_enroll e now d' ≡ enrol e i c now d'
unfolding handle_enroll
enrolled_from e i c now d d' same hi hc =
    let found : index? (has_hash e.code_hash) d'.join_codes ≡ some i = rw same hi in
    let at : get_elem? d'.join_codes i ≡ some c = rw same hc in
    rw (found, handle_enroll) (rw (at, handle_enroll))

-- Removing a person does not end their invites: a code for them that is neither used nor expired
-- still enrols a machine afterwards, as the machine of a person who is not on the panel.
pub handle_enroll-after_removal :
    (who id : String) (at : ℕ) (d d' : Data) (e : Enrolment) (i : ℕ) (c : JoinCode) (now : ℕ)
    → handle_remove_person who id at d ≡ ok d'
    → index? (has_hash e.code_hash) d.join_codes ≡ some i
    → get_elem? d.join_codes i ≡ some c
    → c.person_id ≡ id
    → is_zero c.used_at ≡ true
    → ltb c.expires_at now ≡ false
    → (d'' : Data) × (handle_enroll e now d' ≡ ok d'')
      × (any (λ v. v.person_id == id) d''.devices ≡ true)
      × (find? (λ p. p.id == id) d''.people ≡ none)
handle_enroll-after_removal who id at d d' e i c now removed hi hc same u x =
    let (d'', done, machine, people) = enrol_good e i c now d' u x in
    let codes =
      Ensures-ok (λ (y : Data). y.join_codes ≡ d.join_codes) _
        (join_codes-remove_person who id at d) removed in
    let gone = Ensures-ok _ _ (handle_remove_person-Gone who id at d) removed in
    (
      d'',
      enrolled_from e i c now d d' codes hi hc ∙ done,
      subst (λ k. any (λ v. v.person_id == k) d''.devices ≡ true) same machine,
      ap (find? (λ p. p.id == id)) people ∙ gone.no_person,
    )

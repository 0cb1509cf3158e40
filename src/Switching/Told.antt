-- ===== src/Switching/Told.antt =====
-- internal/cli/rule.go: the move that the person was told of, from setRule to the answer after which it takes place.
use clawdh.Base.{
  ℕ, ◌≤◌, ◌<◌, ◌≡◌, ◌≢◌, ◌⊎◌, refl, ap, ◌∙◌, inl, inr, String, Option, none, some, true, false,
  Bool-cases, ◌==◌, arith, eq_iff, List, [], ◌∷◌, All, All_mono,
}
use clawdh.Switching.Triggers.{week, Rule}
use clawdh.Switching.Rules.{
  Desk, Session, Place, Machine, Trouble, no_target, Target, older_session, already_there,
  unwritten, not_supervised, window_gone, will_move, moving, problem, target, resolve_switch_target,
  read_rule, same_account, set_rule_in, set_rule, reached, of_another, apply_read_rule, apply_rule,
}
use clawdh.Switching.Moves.{Window-cases, handoff_to}

Target-cases :
    (t : Target) → ((why : Trouble) × (t ≡ problem why)) ⊎ ((slug : String) × (t ≡ target slug))
Target-cases (problem why) = inl (why, refl)
Target-cases (target slug) = inr (slug, refl)

-- The rule that setRule writes.
abbrev pub set_in : Rule → String → Session → Rule
set_in r slug sess = record r { account = slug; nonce = sess.nonce }

will_move-injective : (s t : String) → will_move s ≡ will_move t → s ≡ t
will_move-injective s t h = cc

set_rule_in-will_move :
    (m : Machine) (p : Place) (sess : Session) (r : Rule) (d : Desk) (slug : String)
    → (set_rule_in m p sess r d).0 ≡ will_move slug
    → (set_rule_in m p sess r d).1 ≡ record d { rule = some (set_in r slug sess) }
unfolding set_rule_in
set_rule_in-will_move m p sess r d slug h = elim (Bool-cases p.knows_rules) [
  | inr old ↦ let e : older_session ≡ will_move slug = rw (set_rule_in, old) at h in cc
  | inl new ↦ elim (Target-cases (resolve_switch_target m r.account r.shared)) [
    | inl (why, t) ↦ let e : no_target why ≡ will_move slug = rw (set_rule_in, new, t) at h in cc
    | inr (found, t) ↦ elim (Bool-cases (same_account found r.shared sess)) [
      | inl same ↦
          let e : already_there ≡ will_move slug = rw (set_rule_in, new, t, same) at h in cc
      | inr other ↦ elim (Bool-cases p.rule_written) [
        | inr unsaved ↦
            let e : unwritten ≡ will_move slug = rw (set_rule_in, new, t, other, unsaved) at h in cc
        | inl saved ↦
            let e : will_move found ≡ will_move slug =
              rw (set_rule_in, new, t, other, saved) at h in
            rw (set_rule_in, new, t, other, saved)
              (ap (λ s. record d { rule = some (set_in r s sess) })
                (will_move-injective found slug e))
      ]
    ]
  ]
]

set_rule-supervised :
    (m : Machine) (p : Place) (sess : Session) (r : Rule) (d : Desk)
    → r.window ≡ week
    → p.handoff_set ≡ true
    → p.session ≡ some sess
    → set_rule m p r d ≡ set_rule_in m p sess r d
unfolding set_rule
set_rule-supervised m p sess r d w on here = rw (set_rule, w, on, here) refl

set_rule-will_move :
    (m : Machine) (p : Place) (sess : Session) (r : Rule) (d : Desk) (slug : String)
    → p.session ≡ some sess
    → (set_rule m p r d).0 ≡ will_move slug
    → (r.window ≡ week) × ((set_rule m p r d).1 ≡ record d { rule = some (set_in r slug sess) })
unfolding set_rule
set_rule-will_move m p sess r d slug here h = elim (Window-cases r.window) [
  | inr gone ↦ let e : window_gone ≡ will_move slug = rw (set_rule, gone) at h in cc
  | inl w ↦ elim (Bool-cases p.handoff_set) [
    | inr off ↦ let e : not_supervised ≡ will_move slug = rw (set_rule, w, off) at h in cc
    | inl on ↦
        let e : (set_rule_in m p sess r d).0 ≡ will_move slug = rw (set_rule, w, on, here) at h in
        (
          w,
          ap (λ x. x.1) (set_rule-supervised m p sess r d w on here)
              ∙ set_rule_in-will_move m p sess r d slug e,
        )
  ]
]

own_rule :
    (r : Rule) (slug : String) (sess : Session) → of_another (set_in r slug sess) sess ≡ false
unfolding of_another
own_rule r slug sess = ground (arith, eq_iff sess.nonce sess.nonce)

apply_rule-fires :
    (p : Place) (sess : Session) (session_id : String) (used : Option ℕ) (d : Desk) (r : Rule)
    → read_rule d ≡ some r
    → of_another r sess ≡ false
    → r.window ≡ week
    → reached r used ≡ true
    → p.folder_readable ≡ true
    → p.handoff_written ≡ true
    → apply_rule p sess session_id used d
      ≡ (some (moving r.account), record { rule = none; handoff = some (handoff_to r session_id) })
unfolding apply_rule apply_read_rule
apply_rule-fires p sess session_id used d r e own w enough good saved =
    rw (apply_rule, e, apply_read_rule, own, w, enough, good, saved) refl

read_rule-named :
    (r : Rule) (d : Desk)
    → (r.account == "") ≡ false
    → read_rule (record d { rule = some r }) ≡ some r
unfolding read_rule
read_rule-named r d h = rw (read_rule, h) refl

-- The usage is at the percentage that a rule waits for, and it is not.
abbrev pub Enough : ℕ → Option ℕ → Type 0
Enough at_percent used = (at_percent ≡ 0) ⊎ ((u : ℕ) × (used ≡ some u) × (at_percent ≤ u))

abbrev pub Short : ℕ → Option ℕ → Type 0
Short at_percent none = 0 < at_percent
Short at_percent (some u) = u < at_percent

Enough-reached : (r : Rule) (used : Option ℕ) → Enough r.at_percent used → reached r used ≡ true
unfolding reached
Enough-reached r none (inl h) = ground arith
Enough-reached r (some u) (inl h) = ground arith
Enough-reached r used (inr (u, e, h)) = rw e (ground arith)

Short-reached : (r : Rule) (used : Option ℕ) → Short r.at_percent used → reached r used ≡ false
unfolding reached
Short-reached r none h = ground arith
Short-reached r (some u) h = ground arith

-- The files after the answers that a session has finished, one after the other.
abbrev pub after_answers : Place → Session → String → List (Option ℕ) → Desk → Desk
after_answers p sess session_id [] d = d
after_answers p sess session_id (used ∷ answers) d =
    after_answers p sess session_id answers ((apply_rule p sess session_id used d).1)

apply_rule-waits :
    (p : Place) (sess : Session) (session_id : String) (used : Option ℕ) (d : Desk) (r : Rule)
    → read_rule d ≡ some r
    → of_another r sess ≡ false
    → r.window ≡ week
    → reached r used ≡ false
    → apply_rule p sess session_id used d ≡ (none, d)
unfolding apply_rule apply_read_rule
apply_rule-waits p sess session_id used d r e own w short =
    rw (apply_rule, e, apply_read_rule, own, w, short) refl

module _ (p : Place) (sess : Session) (session_id : String) (d : Desk) where
  abbrev Waits : Option ℕ → Type 0
  Waits used = apply_rule p sess session_id used d ≡ (none, d)

  after_answers_lem :
      (answers : List (Option ℕ))
      → All Waits answers
      → after_answers p sess session_id answers d ≡ d
  after_answers_lem [] h = refl
  after_answers_lem (used ∷ answers) h =
      ap (λ x. after_answers p sess session_id answers (x.1)) h.0 ∙ after_answers_lem answers h.1

-- A move that the person was told of, to an account with a slug, waits through every answer that finds the
-- usage below the percentage asked for: they say nothing and leave the files as they are. It takes place after the
-- first answer that finds the usage reached, if then the folder can be read and the handoff be written, and only
-- once: the rule is gone with it.
pub set_rule-apply_rule :
    (m : Machine) (p : Place) (sess : Session) (r : Rule) (d : Desk) (slug session_id : String)
    (earlier : List (Option ℕ)) (used : Option ℕ)
    → p.session ≡ some sess
    → (set_rule m p r d).0 ≡ will_move slug
    → slug ≢ ""
    → All (Short r.at_percent) earlier
    → Enough r.at_percent used
    → p.folder_readable ≡ true
    → p.handoff_written ≡ true
    → All
        (λ u. apply_rule p sess session_id u ((set_rule m p r d).1) ≡ (none, (set_rule m p r d).1))
        earlier
      × (apply_rule p sess session_id used
            (after_answers p sess session_id earlier ((set_rule m p r d).1))
          ≡ (
            some (moving slug),
            record {
              rule = none;
              handoff =
                  some (record { account = slug; session_id = session_id; shared = r.shared });
            },
          ))
set_rule-apply_rule m p sess r d slug session_id earlier used here told named short enough good
      saved =
    let s = set_rule-will_move m p sess r d slug here told in
    let unblank : (slug == "") ≡ false = ground (arith, eq_iff slug "", named) in
    let moved : Desk = (set_rule m p r d).1 in
    let own : Rule = set_in r slug sess in
    let held : read_rule moved ≡ some own = ap read_rule s.1 ∙ read_rule-named own d unblank in
    let waits : All (Waits p sess session_id moved) earlier =
      All_mono (Short r.at_percent) (Waits p sess session_id moved)
        (λ u h.
          apply_rule-waits p sess session_id u moved own held (own_rule r slug sess) s.0
            (Short-reached own u h))
        earlier short in
    (
      waits,
      ap (apply_rule p sess session_id used)
            (after_answers_lem p sess session_id moved earlier waits)
          ∙ apply_rule-fires p sess session_id used moved own held (own_rule r slug sess) s.0
              (Enough-reached own used enough) good saved,
    )

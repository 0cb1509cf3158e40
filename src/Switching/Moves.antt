-- ===== src/Switching/Moves.antt =====
-- internal/cli/rule.go and cmd_hook.go: what an answer that finishes does with a rule.
use clawdh.Base.{
  ℕ, ◌≤◌, ◌≡◌, ◌⊎◌, refl, ◌∙◌, inl, inr, String, Option, none, some, Option-cases, true, false,
  Bool-cases, ◌==◌, leb, arith, if◌then◌else◌,
}
use clawdh.Switching.Triggers.{Window, week, five_hours, Rule}
use clawdh.Switching.Rules.{
  Handoff, Desk, Session, Place, read_rule, reached, of_another, apply_read_rule, apply_rule,
}

read_rule-some : (d : Desk) (r : Rule) → read_rule d ≡ some r → d.rule ≡ some r
unfolding read_rule
read_rule-some d r e = elim (Option-cases d.rule) [
  | inl n ↦ let h : Path (Option Rule) none (some r) = rw (read_rule, n) at e in cc
  | inr (q, n) ↦
      let h : (if q.account == "" then none else some q) ≡ some r = rw (read_rule, n) at e in
      n ∙ elim (Bool-cases (q.account == "")) [
        | inl blank ↦ let k : Path (Option Rule) none (some r) = rw blank at h in cc
        | inr named ↦ rw named at h
      ]
]

-- The rule may move the session.
abbrev pub Ripe : Rule → Session → Option ℕ → Type 0
Ripe r sess used =
    (of_another r sess ≡ false)
    × (r.window ≡ week)
    × ((r.at_percent ≡ 0) ⊎ ((u : ℕ) × (used ≡ some u) × (r.at_percent ≤ u)))

abbrev pub handoff_to : Rule → String → Handoff
handoff_to r session_id = record { account = r.account; session_id = session_id; shared = r.shared }

reached-Ripe :
    (r : Rule) (used : Option ℕ)
    → reached r used ≡ true
    → (r.at_percent ≡ 0) ⊎ ((u : ℕ) × (used ≡ some u) × (r.at_percent ≤ u))
unfolding reached
reached-Ripe r none h = inl (ground arith)
reached-Ripe r (some u) h = elim (Bool-cases (leb r.at_percent u)) [
  | inl enough ↦ inr (u, refl, ground arith)
  | inr short ↦ inl (ground arith)
]

pub Window-cases : (w : Window) → (w ≡ week) ⊎ (w ≡ five_hours)
Window-cases week = inl refl
Window-cases five_hours = inr refl

-- What the files of a supervisor may come to.
abbrev pub Moved : Session → String → Option ℕ → Desk → Desk → Type 0
Moved sess session_id used d after =
    (after.handoff ≡ d.handoff)
    ⊎ ((r : Rule) × (d.rule ≡ some r)
        × Ripe r sess used
        × (after.rule ≡ none)
        × (after.handoff ≡ some (handoff_to r session_id)))

apply_read_rule-Moved :
    (p : Place) (sess : Session) (session_id : String) (used : Option ℕ) (r : Rule) (d : Desk)
    → d.rule ≡ some r
    → Moved sess session_id used d ((apply_read_rule p sess session_id used r d).1)
unfolding apply_read_rule
apply_read_rule-Moved p sess session_id used r d e = elim (Bool-cases (of_another r sess)) [
  | inl other ↦ rw (apply_read_rule, other) (inl refl)
  | inr own ↦ elim (Window-cases r.window) [
    | inr gone ↦ rw (apply_read_rule, own, gone) (inl refl)
    | inl w ↦ elim (Bool-cases (reached r used)) [
      | inr short ↦ rw (apply_read_rule, own, w, short) (inl refl)
      | inl enough ↦ elim (Bool-cases p.folder_readable) [
        | inr bad ↦ rw (apply_read_rule, own, w, enough, bad) (inl refl)
        | inl good ↦ elim (Bool-cases p.handoff_written) [
          | inr unsaved ↦ rw (apply_read_rule, own, w, enough, good, unsaved) (inl refl)
          | inl saved ↦
              rw (apply_read_rule, own, w, enough, good, saved)
                (inr (r, e, (own, w, reached-Ripe r used enough), refl, refl))
        ]
      ]
    ]
  ]
]

-- An answer that finishes leaves the handoff alone, or moves the session to the account of a rule that was
-- pending, on the week, set in this session or without a mark, with a reading at or above its percentage
-- unless that is zero; and then the rule is gone.
pub apply_rule-Moved :
    (p : Place) (sess : Session) (session_id : String) (used : Option ℕ) (d : Desk)
    → Moved sess session_id used d ((apply_rule p sess session_id used d).1)
unfolding apply_rule
apply_rule-Moved p sess session_id used d = elim (Option-cases (read_rule d)) [
  | inl e ↦ rw (apply_rule, e) (inl refl)
  | inr (r, e) ↦
      rw (apply_rule, e) (apply_read_rule-Moved p sess session_id used r d (read_rule-some d r e))
]

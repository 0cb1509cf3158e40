-- ===== src/Jobs/Order.antt =====
-- internal/remotejobs/queue.go: the order in which held requests run and are shown.
use clawdh.Base.{◌≤◌, List, [], ◌∷◌, Bool-cases, inl, inr, arith, leb, All, All_mono, Pairwise}
use mathlib.Core.List.{Perm}
use mathlib.Core.List.Perm
use clawdh.Jobs.{Request, insert, by_receipt}

infix 50 ◌⊑◌
-- Received no later.
abbrev pub ◌⊑◌ : Request → Request → Type 0
r ⊑ s = r.received_at ≤ s.received_at

insert-All :
    (x r : Request) (rs : List Request)
    → x ⊑ r
    → All (λ y. x ⊑ y) rs
    → All (λ y. x ⊑ y) (insert r rs)
unfolding insert
insert-All x r [] h k = (h, tt)
insert-All x r (y ∷ rs) h k = ground (arith, insert-All x r rs h k.1)

insert-Pairwise : (r : Request) (rs : List Request) → Pairwise ◌⊑◌ rs → Pairwise ◌⊑◌ (insert r rs)
unfolding insert
insert-Pairwise r [] h = (tt, tt)
insert-Pairwise r (x ∷ rs) h = elim (Bool-cases (leb r.received_at x.received_at)) [
  | inl e ↦
      rw e (((ground arith), All_mono (λ y. x ⊑ y) (λ y. r ⊑ y) (λ y k. ground arith) rs h.0), h)
  | inr e ↦ rw e (insert-All x r rs (ground arith) h.0, insert-Pairwise r rs h.1)
]

by_receipt-Pairwise : (rs : List Request) → Pairwise ◌⊑◌ (by_receipt rs)
unfolding by_receipt
by_receipt-Pairwise [] = tt
by_receipt-Pairwise (r ∷ rs) = insert-Pairwise r (by_receipt rs) (by_receipt-Pairwise rs)

insert-Perm : (r : Request) (rs : List Request) → Perm (insert r rs) (r ∷ rs)
unfolding insert
insert-Perm r [] = Perm.refl (r ∷ [])
insert-Perm r (x ∷ rs) = elim (Bool-cases (leb r.received_at x.received_at)) [
  | inl e ↦ rw e (Perm.refl (r ∷ x ∷ rs))
  | inr e ↦ rw e (Perm.trans (Perm.cons x (insert-Perm r rs)) (Perm.swap r x rs))
]

by_receipt-Perm : (rs : List Request) → Perm (by_receipt rs) rs
unfolding by_receipt
by_receipt-Perm [] = Perm.refl []
by_receipt-Perm (r ∷ rs) =
    Perm.trans (insert-Perm r (by_receipt rs)) (Perm.cons r (by_receipt-Perm rs))

-- The requests run, and shown, in order are the held ones: sorted by the time of receipt, each as
-- often as it is held.
pub by_receipt_lem : (rs : List Request) → Pairwise ◌⊑◌ (by_receipt rs) × Perm (by_receipt rs) rs
by_receipt_lem rs = (by_receipt-Pairwise rs, by_receipt-Perm rs)

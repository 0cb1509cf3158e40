-- ===== src/Server/Writer/Flushes.antt =====
-- cmd/clawdh-server/dbwriter.go: the steps of flush and the usage rows.
use clawdh.Base.{
  Bool, ℕ, ◌≤◌, ◌<◌, ◌≡◌, refl, sym, subst, ◌⊎◌, inl, inr, String, List, [], ◌∷◌, ◌++◌, Option,
  none, some, Option-cases, Bool-cases, arith, nat_eq, ◌&&◌, ◌==◌, lookup, All, All-append,
  Pairwise, Pairwise-append_one,
}
use clawdh.Gateway.Credentials.{Credential}
use clawdh.Server.Writer.{
  same_credential, Windows, PendingEvent, Writer, Batch, forget_credential, forget_window,
  forget_collision,
}
use clawdh.Server.Writer.Run.{State, write_next}
use clawdh.Server.Writer.Rows.{Before, OnceFor, IsOnce, Settled-mono}

-- An entry that is forgotten leaves the rows as they are.
abbrev KeepsRows : Writer → Writer → Type 0
KeepsRows w v = (v.events ≡ w.events) × (v.seq ≡ w.seq)

forget_credential-KeepsRows :
    (id : String) (c : Credential) (w : Writer) → KeepsRows w (forget_credential id c w)
unfolding forget_credential
forget_credential-KeepsRows id c w = elim (Option-cases (lookup id w.creds)) [
  | inl e ↦ rw (forget_credential, e) (refl, refl)
  | inr (cur, e) ↦
      rw (forget_credential, e)
        (elim (Bool-cases (same_credential cur c)) [
          | inl y ↦ rw y (refl, refl)
          | inr n ↦ rw n (refl, refl)
        ])
]

forget_window-KeepsRows :
    (id : String) (win : Windows) (w : Writer) → KeepsRows w (forget_window id win w)
unfolding forget_window
forget_window-KeepsRows id win w = elim (Option-cases (lookup id w.windows)) [
  | inl e ↦ rw (forget_window, e) (refl, refl)
  | inr (cur, e) ↦
      rw (forget_window, e)
        (elim (Bool-cases
          (nat_eq cur.seven_d win.seven_d && nat_eq cur.seven_d_reset win.seven_d_reset)) [
            | inl y ↦ rw y (refl, refl)
            | inr n ↦ rw n (refl, refl)
          ])
]

forget_collision-KeepsRows :
    (id note : String) (w : Writer) → KeepsRows w (forget_collision id note w)
unfolding forget_collision
forget_collision-KeepsRows id note w = elim (Option-cases (lookup id w.collisions)) [
  | inl e ↦ rw (forget_collision, e) (refl, refl)
  | inr (cur, e) ↦
      rw (forget_collision, e)
        (elim (Bool-cases (cur == note)) [ inl y ↦ rw y (refl, refl) | inr n ↦ rw n (refl, refl) ])
]

KeepsRows-OnceFor :
    (w v : Writer) (stored : List PendingEvent) (flush : Option (List PendingEvent × ℕ))
    → KeepsRows w v
    → OnceFor w.events w.seq stored flush
    → OnceFor v.events v.seq stored flush
KeepsRows-OnceFor w v stored flush (e, n) o =
    subst (λ k. OnceFor v.events k stored flush) (sym n)
      (subst (λ es. OnceFor es w.seq stored flush) (sym e) o)

-- No row is written before the maps are.
unfoldable pub RowsLast :
    List (String × Credential) → List (String × Windows) → List (String × String) → ℕ → Type 0
RowsLast [] [] [] n = Unit
RowsLast _ _ _ n = n ≡ 0

pub zero-RowsLast :
    (cs : List (String × Credential)) (ws : List (String × Windows)) (ns : List (String × String))
    → RowsLast cs ws ns 0
unfolding RowsLast
zero-RowsLast [] [] [] = tt
zero-RowsLast [] [] (x ∷ ns) = refl
zero-RowsLast [] (x ∷ ws) ns = refl
zero-RowsLast (x ∷ cs) ws ns = refl

abbrev pub LastFor : Option Batch → Type 0
LastFor none = Unit
LastFor (some b) = RowsLast b.creds b.windows b.collisions b.written

abbrev pub Keeps : State → Type 0
Keeps s = IsOnce s × LastFor s.batch

-- Writing the next row: the ones that wait are later, and of the queue it is the last one to drop.
write_event-OnceFor :
    (queue : List PendingEvent) (seq : ℕ) (stored : List PendingEvent) (e : PendingEvent)
    (es : List PendingEvent) (n : ℕ)
    → OnceFor queue seq stored (some (e ∷ es, n))
    → OnceFor queue seq (stored ++ e ∷ []) (some (es, e.seq))
write_event-OnceFor queue seq stored e es n o =
    let f = o.flushing in
    let todo : Pairwise Before (e ∷ es) = f.1 in
    record {
      bounded = o.bounded;
      queued = o.queued;
      numbered = o.numbered;
      in_order = Pairwise-append_one Before stored e o.in_order f.2.0;
      old = All-append (λ x. x.seq ≤ seq) stored (e ∷ []) o.old (f.3.0.0, tt);
      flushing = (
        All-append (λ x. All (λ q. (x.seq < q.seq) ⊎ (q.seq ≤ e.seq)) queue) stored (e ∷ [])
            (Settled-mono n e.seq queue stored f.3.0.1 f.0) (split queue, tt),
        todo.1,
        later es f.2.1 todo.0,
        All_mono_both es f.3.1 todo.0,
      );
    }
  where
    split : (qs : List PendingEvent) → All (λ q. (e.seq < q.seq) ⊎ (q.seq ≤ e.seq)) qs
    split [] = tt
    split (q ∷ qs) = (ground arith, split qs)

    later :
        (xs : List PendingEvent)
        → All (λ x. All (λ y. y.seq < x.seq) stored) xs
        → All (λ x. e.seq < x.seq) xs
        → All (λ x. All (λ y. y.seq < x.seq) (stored ++ e ∷ [])) xs
    later [] k l = tt
    later (x ∷ xs) k l =
        (All-append (λ y. y.seq < x.seq) stored (e ∷ []) k.0 (l.0, tt), later xs k.1 l.1)

    All_mono_both :
        (xs : List PendingEvent)
        → All (λ x. (x.seq ≤ seq) × (n ≤ x.seq)) xs
        → All (λ x. e.seq < x.seq) xs
        → All (λ x. (x.seq ≤ seq) × (e.seq ≤ x.seq)) xs
    All_mono_both [] k l = tt
    All_mono_both (x ∷ xs) k l = ((k.0.0, omega (arith, l.0)), All_mono_both xs k.1 l.1)

module _ (s : State) where
  pub write_next-Keeps :
      (stored : Bool) (cs : List (String × Credential)) (ws : List (String × Windows))
      (ns : List (String × String)) (es : List PendingEvent) (n : ℕ)
      → OnceFor s.writer.events s.writer.seq s.events (some (es, n))
      → RowsLast cs ws ns n
      → IsOnce s
      → LastFor s.batch
      → Keeps (write_next stored cs ws ns es n s)
  unfolding write_next RowsLast
  write_next-Keeps stored ((id, c) ∷ cs) ws ns es n o l i k = (
    KeepsRows-OnceFor s.writer (forget_credential id c s.writer) s.events (some (es, n))
        (forget_credential-KeepsRows id c s.writer) o,
    subst (RowsLast cs ws ns) (sym l) (zero-RowsLast cs ws ns),
  )
  write_next-Keeps stored [] ((id, win) ∷ ws) ns es n o l i k = (
    KeepsRows-OnceFor s.writer (forget_window id win s.writer) s.events (some (es, n))
        (forget_window-KeepsRows id win s.writer) o,
    subst (RowsLast [] ws ns) (sym l) (zero-RowsLast [] ws ns),
  )
  write_next-Keeps stored [] [] ((id, note) ∷ ns) es n o l i k = (
    KeepsRows-OnceFor s.writer (forget_collision id note s.writer) s.events (some (es, n))
        (forget_collision-KeepsRows id note s.writer) o,
    subst (RowsLast [] [] ns) (sym l) (zero-RowsLast [] [] ns),
  )
  write_next-Keeps stored [] [] [] (e ∷ es) n o l i k =
      (write_event-OnceFor s.writer.events s.writer.seq s.events e es n o, tt)
  write_next-Keeps stored [] [] [] [] n o l i k = (i, k)

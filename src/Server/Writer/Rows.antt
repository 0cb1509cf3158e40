-- ===== src/Server/Writer/Rows.antt =====
-- cmd/clawdh-server/dbwriter.go: the usage rows, as they are queued, stored and dropped.
use clawdh.Base.{
  ℕ, suc, ◌≤◌, ◌<◌, ◌⊎◌, inl, inr, List, [], ◌∷◌, ◌++◌, Option, none, some, Bool-cases, arith, leb,
  drop, length, length-append, length-drop, All, All-append, All_mono, Pairwise,
  Pairwise-append_one,
}
use clawdh.Server.Writer.{
  Usage, PendingEvent, Writer, max_pending_events, make_room, credential, window, collision, event,
  drop_written, Batch,
}
use clawdh.Server.Writer.Run.{State, Request, rotates, reads, collides, uses, hand_over}

-- Queued earlier.
abbrev pub Before : PendingEvent → PendingEvent → Type 0
Before e f = e.seq < f.seq

-- A stored row is before every queued one that the flush under way does not drop.
abbrev pub Settled : ℕ → List PendingEvent → List PendingEvent → Type 0
Settled written queue stored =
    All (λ x. All (λ q. (x.seq < q.seq) ⊎ (q.seq ≤ written)) queue) stored

-- The rows that a flush under way has still to write, and the last one it wrote.
abbrev pub phase : Option Batch → Option (List PendingEvent × ℕ)
phase none = none
phase (some b) = some (b.events, b.written)

abbrev pub Flushing :
    List PendingEvent → ℕ → List PendingEvent → Option (List PendingEvent × ℕ) → Type 0
Flushing queue seq stored none = Settled 0 queue stored
Flushing queue seq stored (some (todo, written)) =
    Settled written queue stored
    × Pairwise Before todo
    × All (λ e. All (λ x. x.seq < e.seq) stored) todo
    × All (λ e. (e.seq ≤ seq) × (written ≤ e.seq)) todo

-- A queue, the last number given, what is stored and the flush under way.
pub record OnceFor (queue : List PendingEvent) (seq : ℕ) (stored : List PendingEvent)
    (flush : Option (List PendingEvent × ℕ)) : Type 0 where
  pub bounded : length queue ≤ max_pending_events
  pub queued : Pairwise Before queue
  pub numbered : All (λ e. (0 < e.seq) × (e.seq ≤ seq)) queue
  pub in_order : Pairwise Before stored
  pub old : All (λ e. e.seq ≤ seq) stored
  pub flushing : Flushing queue seq stored flush

abbrev pub IsOnce : State → Type 0
IsOnce s = OnceFor s.writer.events s.writer.seq s.events (phase s.batch)

module _ (P : PendingEvent → Type 0) where
  pub All-drop_written : (n : ℕ) (es : List PendingEvent) → All P es → All P (drop_written n es)
  unfolding drop_written
  All-drop_written n [] h = tt
  All-drop_written n (e ∷ es) h = elim (Bool-cases (leb e.seq n)) [
    | inl le ↦ rw le (All-drop_written n es h.1)
    | inr gt ↦ rw gt h
  ]

  All_tail : (es : List PendingEvent) → All P es → All P (drop 1 es)
  All_tail [] h = tt
  All_tail (e ∷ es) h = h.1

pub Pairwise-drop_written :
    (n : ℕ) (es : List PendingEvent) → Pairwise Before es → Pairwise Before (drop_written n es)
unfolding drop_written
Pairwise-drop_written n [] h = tt
Pairwise-drop_written n (e ∷ es) h = elim (Bool-cases (leb e.seq n)) [
  | inl le ↦ rw le (Pairwise-drop_written n es h.1)
  | inr gt ↦ rw gt h
]

Pairwise-tail : (es : List PendingEvent) → Pairwise Before es → Pairwise Before (drop 1 es)
Pairwise-tail [] h = tt
Pairwise-tail (e ∷ es) h = h.1

-- What is left of a queue in order is all later.
pub drop_written-later :
    (n : ℕ) (es : List PendingEvent) → Pairwise Before es → All (λ e. n < e.seq) (drop_written n es)
unfolding drop_written
drop_written-later n [] h = tt
drop_written-later n (e ∷ es) h = elim (Bool-cases (leb e.seq n)) [
  | inl le ↦ rw le (drop_written-later n es h.1)
  | inr gt ↦ rw gt (ground arith, All_mono (Before e) (λ f. n < f.seq) (λ f k. ground arith) es h.0)
]

pub length-drop_written : (n : ℕ) (es : List PendingEvent) → length (drop_written n es) ≤ length es
unfolding drop_written
length-drop_written n [] = omega arith
length-drop_written n (e ∷ es) = ground (arith, length-drop_written n es)

pub Settled-mono :
    (n m : ℕ) (queue stored : List PendingEvent)
    → n ≤ m
    → Settled n queue stored
    → Settled m queue stored
Settled-mono n m queue stored h k =
    All_mono (λ x. All (λ q. (x.seq < q.seq) ⊎ (q.seq ≤ n)) queue)
      (λ x. All (λ q. (x.seq < q.seq) ⊎ (q.seq ≤ m)) queue)
      (λ x a.
        All_mono (λ q. (x.seq < q.seq) ⊎ (q.seq ≤ n)) (λ q. (x.seq < q.seq) ⊎ (q.seq ≤ m))
          (λ q b. ground arith) queue a)
      stored k

-- The front of the queue goes.
tail-OnceFor :
    (queue : List PendingEvent) (seq : ℕ) (stored : List PendingEvent)
    (flush : Option (List PendingEvent × ℕ))
    → OnceFor queue seq stored flush
    → OnceFor (drop 1 queue) seq stored flush
tail-OnceFor queue seq stored flush o = record {
  bounded = omega (arith, length-drop 1 queue, o.bounded);
  queued = Pairwise-tail queue o.queued;
  numbered = All_tail (λ e. (0 < e.seq) × (e.seq ≤ seq)) queue o.numbered;
  in_order = o.in_order;
  old = o.old;
  flushing = go flush o.flushing;
}
  where
    shrink : (n : ℕ) → Settled n queue stored → Settled n (drop 1 queue) stored
    shrink n k =
        All_mono (λ x. All (λ q. (x.seq < q.seq) ⊎ (q.seq ≤ n)) queue)
          (λ x. All (λ q. (x.seq < q.seq) ⊎ (q.seq ≤ n)) (drop 1 queue))
          (λ x a. All_tail (λ q. (x.seq < q.seq) ⊎ (q.seq ≤ n)) queue a) stored k

    go :
        (f : Option (List PendingEvent × ℕ))
        → Flushing queue seq stored f
        → Flushing (drop 1 queue) seq stored f
    go none k = shrink 0 k
    go (some (todo, n)) k = (shrink n k.0, k.1, k.2, k.3)

-- A row with the next number is queued, where there is room.
queue-OnceFor :
    (queue : List PendingEvent) (seq : ℕ) (stored : List PendingEvent)
    (flush : Option (List PendingEvent × ℕ)) (ev : Usage)
    → length queue < max_pending_events
    → OnceFor queue seq stored flush
    → OnceFor (queue ++ record { seq = suc seq; ev = ev } ∷ []) (suc seq) stored flush
queue-OnceFor queue seq stored flush ev room o = record {
  bounded = omega (arith, length-append queue (new ∷ []), room);
  queued = Pairwise-append_one Before queue new o.queued (
      All_mono (λ e. (0 < e.seq) × (e.seq ≤ seq)) (λ e. e.seq < suc seq) (λ e k. omega (arith, k.1))
        queue o.numbered);
  numbered =
      All-append (λ e. (0 < e.seq) × (e.seq ≤ suc seq)) queue (new ∷ [])
        (All_mono (λ e. (0 < e.seq) × (e.seq ≤ seq)) (λ e. (0 < e.seq) × (e.seq ≤ suc seq))
          (λ e k. (k.0, omega (arith, k.1))) queue o.numbered)
        ((omega arith, omega arith), tt);
  in_order = o.in_order;
  old = All_mono (λ e. e.seq ≤ seq) (λ e. e.seq ≤ suc seq) (λ e k. omega (arith, k)) stored o.old;
  flushing = go flush o.flushing;
}
  where
    new : PendingEvent
    new = record { seq = suc seq; ev = ev }

    grow :
        (n : ℕ) (xs : List PendingEvent)
        → Settled n queue xs
        → All (λ e. e.seq ≤ seq) xs
        → Settled n (queue ++ new ∷ []) xs
    grow n [] k a = tt
    grow n (x ∷ xs) k a = (
      All-append (λ q. (x.seq < q.seq) ⊎ (q.seq ≤ n)) queue (new ∷ []) k.0
          (inl (omega (arith, a.0)), tt),
      grow n xs k.1 a.1,
    )

    go :
        (f : Option (List PendingEvent × ℕ))
        → Flushing queue seq stored f
        → Flushing (queue ++ new ∷ []) (suc seq) stored f
    go none k = grow 0 stored k o.old
    go (some (todo, n)) k = (
      grow n stored k.0 o.old,
      k.1,
      k.2,
      All_mono (λ e. (e.seq ≤ seq) × (n ≤ e.seq)) (λ e. (e.seq ≤ suc seq) × (n ≤ e.seq))
          (λ e h. (omega (arith, h.0), h.1)) todo k.3,
    )

make_room-OnceFor :
    (w : Writer) (stored : List PendingEvent) (flush : Option (List PendingEvent × ℕ))
    → OnceFor w.events w.seq stored flush
    → (length (make_room w).events < max_pending_events)
      × OnceFor (make_room w).events (make_room w).seq stored flush
unfolding make_room
make_room-OnceFor w stored flush o = elim (Bool-cases (leb max_pending_events (length w.events))) [
  | inl full ↦
      rw full (
        omega (arith, length-drop 1 w.events, o.bounded),
        tail-OnceFor w.events w.seq stored flush o,
      )
  | inr room ↦ rw room (ground arith, o)
]

-- A request's call.
pub hand_over-OnceFor :
    (r : Request) (w : Writer) (stored : List PendingEvent) (flush : Option (List PendingEvent × ℕ))
    → OnceFor w.events w.seq stored flush
    → OnceFor (hand_over r w).events (hand_over r w).seq stored flush
unfolding hand_over credential window collision event
hand_over-OnceFor (rotates id c) w stored flush o = o
hand_over-OnceFor (reads id win) w stored flush o = o
hand_over-OnceFor (collides id note) w stored flush o = o
hand_over-OnceFor (uses ev) w stored flush o =
    queue-OnceFor (make_room w).events (make_room w).seq stored flush ev
      (make_room-OnceFor w stored flush o).0 (make_room-OnceFor w stored flush o).1

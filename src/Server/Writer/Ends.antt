-- ===== src/Server/Writer/Ends.antt =====
-- cmd/clawdh-server/dbwriter.go: the start and the end of a flush and the usage rows.
use clawdh.Base.{ℕ, ◌≤◌, ◌<◌, subst, ◌⊎◌, String, List, [], ◌∷◌, none, some, arith, All, All_mono}
use clawdh.Gateway.Credentials.{Credential}
use clawdh.Server.Writer.{Windows, PendingEvent, drop_written}
use clawdh.Server.Writer.Run.{State, leave}
use clawdh.Server.Writer.Rows.{
  Settled, OnceFor, All-drop_written, Pairwise-drop_written, drop_written-later,
  length-drop_written,
}
use clawdh.Server.Writer.Flushes.{Keeps, RowsLast}

-- For each of one list all of the other, and the other way round.
All_swap :
    (R : PendingEvent → PendingEvent → Type 0) (xs qs : List PendingEvent)
    → All (λ x. All (R x) qs) xs
    → All (λ q. All (λ x. R x q) xs) qs
All_swap R [] [] k = tt
All_swap R [] (q ∷ qs) k = (tt, All_swap R [] qs tt)
All_swap R (x ∷ xs) qs k = zip qs k.0 (All_swap R xs qs k.1)
  where
    zip :
        (qs : List PendingEvent)
        → All (R x) qs
        → All (λ q. All (λ y. R y q) xs) qs
        → All (λ q. R x q × All (λ y. R y q) xs) qs
    zip [] a b = tt
    zip (q ∷ qs) a b = ((a.0, b.0), zip qs a.1 b.1)

-- The rows that a flush reads are all of the queue.
pub begin-OnceFor :
    (queue : List PendingEvent) (seq : ℕ) (stored : List PendingEvent)
    → OnceFor queue seq stored none
    → OnceFor queue seq stored (some (queue, 0))
begin-OnceFor queue seq stored o = record {
  bounded = o.bounded;
  queued = o.queued;
  numbered = o.numbered;
  in_order = o.in_order;
  old = o.old;
  flushing = (
    o.flushing,
    o.queued,
    earlier queue o.numbered (flip stored o.flushing),
    All_mono (λ e. (0 < e.seq) × (e.seq ≤ seq)) (λ e. (e.seq ≤ seq) × (0 ≤ e.seq))
        (λ e k. (k.1, omega arith)) queue o.numbered,
  );
}
  where
    flip :
        (xs : List PendingEvent)
        → Settled 0 queue xs
        → All (λ q. All (λ x. (x.seq < q.seq) ⊎ (q.seq ≤ 0)) xs) queue
    flip xs k = All_swap (λ x q. (x.seq < q.seq) ⊎ (q.seq ≤ 0)) xs queue k

    earlier :
        (qs : List PendingEvent)
        → All (λ q. (0 < q.seq) × (q.seq ≤ seq)) qs
        → All (λ q. All (λ x. (x.seq < q.seq) ⊎ (q.seq ≤ 0)) stored) qs
        → All (λ q. All (λ x. x.seq < q.seq) stored) qs
    earlier [] a k = tt
    earlier (q ∷ qs) a k = (
      All_mono (λ x. (x.seq < q.seq) ⊎ (q.seq ≤ 0)) (λ x. x.seq < q.seq)
          (λ x h. ground (arith, a.0.0)) stored k.0,
      earlier qs a.1 k.1,
    )

-- The end of a flush that reached the rows.
drop-OnceFor :
    (queue : List PendingEvent) (seq : ℕ) (stored todo : List PendingEvent) (n : ℕ)
    → OnceFor queue seq stored (some (todo, n))
    → OnceFor (drop_written n queue) seq stored none
drop-OnceFor queue seq stored todo n o = record {
  bounded = omega (arith, length-drop_written n queue, o.bounded);
  queued = Pairwise-drop_written n queue o.queued;
  numbered = All-drop_written (λ e. (0 < e.seq) × (e.seq ≤ seq)) n queue o.numbered;
  in_order = o.in_order;
  old = o.old;
  flushing =
      All_mono (λ x. All (λ q. (x.seq < q.seq) ⊎ (q.seq ≤ n)) queue)
        (λ x. All (λ q. (x.seq < q.seq) ⊎ (q.seq ≤ 0)) (drop_written n queue))
        (λ x a.
          sift x (drop_written n queue)
            (All-drop_written (λ q. (x.seq < q.seq) ⊎ (q.seq ≤ n)) n queue a)
            (drop_written-later n queue o.queued))
        stored (o.flushing).0;
}
  where
    sift :
        (x : PendingEvent) (qs : List PendingEvent)
        → All (λ q. (x.seq < q.seq) ⊎ (q.seq ≤ n)) qs
        → All (λ q. n < q.seq) qs
        → All (λ q. (x.seq < q.seq) ⊎ (q.seq ≤ 0)) qs
    sift x [] a l = tt
    sift x (q ∷ qs) a l = (ground (arith, a.0, l.0), sift x qs a.1 l.1)

-- The end of a flush that wrote no row.
quit-OnceFor :
    (queue : List PendingEvent) (seq : ℕ) (stored todo : List PendingEvent)
    → OnceFor queue seq stored (some (todo, 0))
    → OnceFor queue seq stored none
quit-OnceFor queue seq stored todo o = record {
  bounded = o.bounded;
  queued = o.queued;
  numbered = o.numbered;
  in_order = o.in_order;
  old = o.old;
  flushing = (o.flushing).0;
}

pub leave-Keeps :
    (s : State) (cs : List (String × Credential)) (ws : List (String × Windows))
    (ns : List (String × String)) (es : List PendingEvent) (n : ℕ)
    → OnceFor s.writer.events s.writer.seq s.events (some (es, n))
    → RowsLast cs ws ns n
    → Keeps (leave cs ws ns n s)
unfolding leave RowsLast
leave-Keeps s [] [] [] es n o l = (drop-OnceFor s.writer.events s.writer.seq s.events es n o, tt)
leave-Keeps s [] [] (x ∷ ns) es n o l = (
  quit-OnceFor s.writer.events s.writer.seq s.events es
      (subst (λ k. OnceFor s.writer.events s.writer.seq s.events (some (es, k))) l o),
  tt,
)
leave-Keeps s [] (x ∷ ws) ns es n o l = (
  quit-OnceFor s.writer.events s.writer.seq s.events es
      (subst (λ k. OnceFor s.writer.events s.writer.seq s.events (some (es, k))) l o),
  tt,
)
leave-Keeps s (x ∷ cs) ws ns es n o l = (
  quit-OnceFor s.writer.events s.writer.seq s.events es
      (subst (λ k. OnceFor s.writer.events s.writer.seq s.events (some (es, k))) l o),
  tt,
)

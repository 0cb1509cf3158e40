-- ===== src/Server/Writer/Once.antt =====
-- cmd/clawdh-server/dbwriter.go: the usage rows over any run.
use clawdh.Base.{◌≤◌, Option, none, some, arith, length, Pairwise}
use clawdh.Server.Writer.{max_pending_events, Batch, begin}
use clawdh.Server.Writer.Run.{
  State, write_next, leave, Action, asks, begins, writes, leaves, act, Reachable, start, next,
}
use clawdh.Server.Writer.Rows.{Before, phase, OnceFor, IsOnce, hand_over-OnceFor}
use clawdh.Server.Writer.Flushes.{Keeps, LastFor, RowsLast, write_next-Keeps, zero-RowsLast}
use clawdh.Server.Writer.Ends.{leave-Keeps, begin-OnceFor}

act-Keeps : (a : Action) (s : State) → Keeps s → Keeps (act a s)
unfolding act RowsLast begin
act-Keeps (asks r) s k = (hand_over-OnceFor r s.writer s.events (phase s.batch) k.0, k.1)
act-Keeps begins s k = go s.batch k.0 k.1
  where
    go :
        (f : Option Batch)
        → OnceFor s.writer.events s.writer.seq s.events (phase f)
        → LastFor f
        → Keeps (elim f [
          | some b ↦ s
          | none ↦ record s { writer = (begin s.writer).0; batch = some ((begin s.writer).1) }
        ])
    go (some b) o l = k
    go none o l = (
      begin-OnceFor s.writer.events s.writer.seq s.events o,
      zero-RowsLast s.writer.creds s.writer.windows s.writer.collisions,
    )
act-Keeps (writes stored) s k = go s.batch k.0 k.1
  where
    go :
        (f : Option Batch)
        → OnceFor s.writer.events s.writer.seq s.events (phase f)
        → LastFor f
        → Keeps (elim f [
          | some b ↦ write_next stored b.creds b.windows b.collisions b.events b.written s
          | none ↦ s
        ])
    go (some b) o l =
        write_next-Keeps s stored b.creds b.windows b.collisions b.events b.written o l k.0 k.1
    go none o l = k
act-Keeps leaves s k = go s.batch k.0 k.1
  where
    go :
        (f : Option Batch)
        → OnceFor s.writer.events s.writer.seq s.events (phase f)
        → LastFor f
        → Keeps (elim f [ some b ↦ leave b.creds b.windows b.collisions b.written s | none ↦ s ])
    go (some b) o l = leave-Keeps s b.creds b.windows b.collisions b.events b.written o l
    go none o l = k

Reachable-Keeps : {s : State} → Reachable s → Keeps s
Reachable-Keeps start = (
  record {
    bounded = omega arith;
    queued = tt;
    numbered = tt;
    in_order = tt;
    old = tt;
    flushing = tt;
  },
  tt,
)
Reachable-Keeps (next {s = s} a r) = act-Keeps a s (Reachable-Keeps r)

-- However the requests and the writes of the flushes interleave, the usage rows that the database has
-- acknowledged are in the order in which they were queued, so that none of them is written twice, and at
-- most max_pending_events are waiting.
pub Reachable-Once :
    (s : State)
    → Reachable s
    → Pairwise Before s.events × (length s.writer.events ≤ max_pending_events)
Reachable-Once s r = (o.in_order, o.bounded)
  where
    o : IsOnce s
    o = (Reachable-Keeps r).0

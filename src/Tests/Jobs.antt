-- ===== src/Tests/Jobs.antt =====
-- The queue's theorems on a queue that holds two requests.
use clawdh.Base.{◌≡◌, [], ◌∷◌, ◌++◌, some, true, hour}
use clawdh.Jobs.{Request, Persisted, Queue, Hooks, trusts, step}
use clawdh.Jobs.Consent.{runs, if_wired, consented, step-runs}

abbrev later : Request
later = record {
  id = "r1";
  kind = "restart";
  params = "";
  requested_by = "Bob";
  describe = "";
  received_at = 20;
}

abbrev earlier : Request
earlier = record later { id = "r2"; received_at = 10 }

abbrev on_disk : Persisted
on_disk = record { pending = later ∷ earlier ∷ []; trust_until = 0; history = [] }

abbrev queue : Queue
queue = record {
  pending = later ∷ earlier ∷ [];
  trust_until = 0;
  history = [];
  effects = [];
  disk = on_disk;
}

abbrev hooks : Hooks
hooks = record { run = some (λ kind params. ("done", "ok")); reports = true }

step-runs_example :
    runs (step hooks 30 (trusts hour) queue)
    ≡ runs queue ++ if_wired hooks (consented 30 (trusts hour) queue)
step-runs_example = step-runs hooks 30 (trusts hour) queue

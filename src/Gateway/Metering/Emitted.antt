-- ===== src/Gateway/Metering/Emitted.antt =====
-- internal/gateway/metering.go: what the recorder gets of a response.
use clawdh.Base.{
  ℕ, ◌≡◌, refl, sym, ap, ◌∙◌, String, List, [], ◌∷◌, ◌++◌, Option, none, some, Bool, true, false,
  if◌then◌else◌, map,
}
use clawdh.Server.Writer.{Usage}
use clawdh.Gateway.Metering.{
  RespUsage, Scanner, new_scanner, Body, Call, reads, closes, max_line, feed, finish, filled, emit,
  respond,
}
use clawdh.Gateway.Metering.Chunks.{short_lines, joined, absorb, absorb-feed}
use mathlib.Core.List.{append_assoc, append-nil}

abbrev pub new_body : Body
new_body = record { scan = new_scanner; done = false; recorded = [] }

-- How a response ends: with its last bytes, or closed early.
abbrev pub ending : Option (List ℕ) → Call
ending none = closes
ending (some p) = reads p true

abbrev pub last_bytes : Option (List ℕ) → List ℕ
last_bytes none = []
last_bytes (some p) = p

abbrev pub chunk : List ℕ → Call
chunk p = reads p false

joined-append_one : (ps : List (List ℕ)) (q : List ℕ) → joined (ps ++ q ∷ []) ≡ joined ps ++ q
unfolding joined
joined-append_one [] q = append-nil q
joined-append_one (p ∷ ps) q =
    ap (◌++◌ p) (joined-append_one ps q) ∙ sym (append_assoc p (joined ps) q)

module _ (read_start : List ℕ → Option (String × RespUsage))
    (read_delta : List ℕ → Option RespUsage) (read_body : List ℕ → Option (String × RespUsage))
    (base : Usage) where
  unfoldable pub respond_all : List Call → Body → Body
  respond_all [] b = b
  respond_all (c ∷ calls) b = respond_all calls (respond read_start read_delta read_body base c b)

  -- The usage of a response that is read at once.
  unfoldable pub usage_of : List ℕ → List Usage
  usage_of p =
      let s =
        finish read_start read_delta read_body
          (feed read_start read_delta read_body p new_scanner) in
      if s.found.seen then filled base s.found ∷ [] else []

  -- Once it is done a body reports no more.
  respond-done :
      (c : Call) (b : Body)
      → b.done ≡ true
      → ((respond read_start read_delta read_body base c b).recorded ≡ b.recorded)
        × ((respond read_start read_delta read_body base c b).done ≡ true)
  unfolding respond emit
  respond-done (reads [] false) b h = (refl, h)
  respond-done (reads [] true) b h = rw (emit, h) (refl, refl)
  respond-done (reads (x ∷ p) false) b h = (refl, h)
  respond-done (reads (x ∷ p) true) b h = rw (emit, h) (refl, refl)
  respond-done closes b h = rw (emit, h) (refl, refl)

  respond_all-done :
      (calls : List Call) (b : Body) → b.done ≡ true → (respond_all calls b).recorded ≡ b.recorded
  unfolding respond_all
  respond_all-done [] b h = refl
  respond_all-done (c ∷ calls) b h =
      let r = respond-done c b h in
      respond_all-done calls (respond read_start read_delta read_body base c b) r.1 ∙ r.0

  chunks_lem :
      (ps : List (List ℕ)) (calls : List Call) (s : Scanner)
      → respond_all (map chunk ps ++ calls) (record { scan = s; done = false; recorded = [] })
        ≡ respond_all calls (record {
          scan = absorb read_start read_delta read_body ps s;
          done = false;
          recorded = [];
        })
  unfolding respond_all respond absorb
  chunks_lem [] calls s = refl
  chunks_lem ([] ∷ ps) calls s = chunks_lem ps calls s
  chunks_lem ((c ∷ p) ∷ ps) calls s =
      chunks_lem ps calls (feed read_start read_delta read_body (c ∷ p) s)

  -- A body that has not reported reports, and is done.
  emit-new :
      (s : Scanner) (rest : List Call)
      → (respond_all (closes ∷ rest) (record { scan = s; done = false; recorded = [] })).recorded
        ≡ (let t = finish read_start read_delta read_body s in
            if t.found.seen then filled base t.found ∷ [] else [])
  unfolding respond_all respond emit
  emit-new s rest =
      go (finish read_start read_delta read_body s)
        (finish read_start read_delta read_body s).found.seen
    where
      go :
          (t : Scanner) (b : Bool)
          → (respond_all rest (
              if b
              then record { scan = t; done = true; recorded = filled base t.found ∷ [] }
              else record { scan = t; done = true; recorded = [] })).recorded
            ≡ (if b then filled base t.found ∷ [] else [])
      go t true =
          respond_all-done rest
            (record { scan = t; done = true; recorded = filled base t.found ∷ [] }) refl
      go t false = respond_all-done rest (record { scan = t; done = true; recorded = [] }) refl

  closes_lem :
      (ps : List (List ℕ)) (rest : List Call)
      → short_lines max_line (joined ps) ≡ true
      → (respond_all (map chunk ps ++ closes ∷ rest) new_body).recorded ≡ usage_of (joined ps)
  unfolding usage_of feed
  closes_lem ps rest h =
      ap (λ b. b.recorded) (chunks_lem ps (closes ∷ rest) new_scanner)
      ∙ emit-new (absorb read_start read_delta read_body ps new_scanner) rest
      ∙ ap
          (λ s.
            let t = finish read_start read_delta read_body s in
            if t.found.seen then filled base t.found ∷ [] else [])
          (absorb-feed read_start read_delta read_body ps [] new_scanner h)

  last_chunk :
      (ps : List (List ℕ)) (q : List ℕ) (rest : List Call) (b : Body)
      → respond_all (map chunk ps ++ reads q true ∷ rest) b
        ≡ respond_all (map chunk (ps ++ q ∷ []) ++ closes ∷ rest) b
  unfolding respond_all respond
  last_chunk [] [] rest b = refl
  last_chunk [] (c ∷ q) rest b = refl
  last_chunk (p ∷ ps) q rest b =
      last_chunk ps q rest (respond read_start read_delta read_body base (chunk p) b)

  -- However a response is cut into reads, and whether it ends with its last bytes or is closed early, and
  -- whatever calls follow, the recorder gets what reading its bytes at once finds, and gets it once; no line
  -- may be longer than max_line.
  pub respond_all-usage_of :
      (ps : List (List ℕ)) (q : Option (List ℕ)) (rest : List Call)
      → short_lines max_line (joined ps ++ last_bytes q) ≡ true
      → (respond_all (map chunk ps ++ ending q ∷ rest) new_body).recorded
        ≡ usage_of (joined ps ++ last_bytes q)
  respond_all-usage_of ps none rest h =
      let same : joined ps ++ [] ≡ joined ps = append-nil (joined ps) in
      closes_lem ps rest (ap (short_lines max_line) (sym same) ∙ h) ∙ ap usage_of (sym same)
  respond_all-usage_of ps (some q) rest h =
      ap (λ b. b.recorded) (last_chunk ps q rest new_body)
      ∙ closes_lem (ps ++ q ∷ []) rest (ap (short_lines max_line) (joined-append_one ps q) ∙ h)
      ∙ ap usage_of (joined-append_one ps q)

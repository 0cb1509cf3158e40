-- ===== src/Gateway/Metering.antt =====
-- internal/gateway/metering.go: the usage of a response, read from its bytes as they pass. What encoding/json
-- makes of a line is a parameter, one for each of the three shapes that are decoded.
pub mod Chunks
pub mod Emitted
use clawdh.Base.{
  ℕ, zero, suc, ◌-◌, String, List, [], ◌∷◌, ◌++◌, Option, none, some, Bool, true, false, not, ◌&&◌,
  ◌||◌, ◌==◌, ltb, leb, nat_eq, length, drop, newline, bytes, starts_with, index_of, if◌then◌else◌,
}
use clawdh.Server.Writer.{Usage}

-- respUsage
pub record RespUsage : Type 0 where
  pub input : ℕ
  pub output : ℕ
  pub cache_creation : ℕ
  pub cache_read : ℕ
  pub cache_hour : ℕ

abbrev pub no_usage : RespUsage
no_usage = record { input = 0; output = 0; cache_creation = 0; cache_read = 0; cache_hour = 0 }

-- What usageScanner has found: its fields `seen`, `model` and `u`.
pub record Found : Type 0 where
  pub seen : Bool
  pub model : String
  pub usage : RespUsage

-- usageScanner
pub record Scanner : Type 0 where
  pub line : List ℕ
  pub found : Found

abbrev pub new_scanner : Scanner
new_scanner = record { line = []; found = record { seen = false; model = ""; usage = no_usage } }

abbrev pub max_line : ℕ
max_line = 1_048_576

-- White space in ASCII.
unfoldable pub is_blank : ℕ → Bool
is_blank c = (leb 9 c && leb c 13) || nat_eq c 32

-- bytes.TrimSpace
unfoldable pub trim_front : List ℕ → List ℕ
unfolding is_blank
trim_front [] = []
trim_front (c ∷ s) = elim (is_blank c) [ true ↦ trim_front s | false ↦ c ∷ s ]

unfoldable pub trim_back : List ℕ → List ℕ
unfolding is_blank
trim_back [] = []
trim_back (c ∷ s) = elim (trim_back s) [
  | [] ↦ if is_blank c then [] else c ∷ []
  | d ∷ t ↦ c ∷ d ∷ t
]

unfoldable pub trim : List ℕ → List ℕ
unfolding trim_front trim_back
trim s = trim_back (trim_front s)

unfoldable pub contains : List ℕ → String → Bool
unfolding index_of bytes
contains json word = elim (index_of (bytes word) json) [ some i ↦ true | none ↦ false ]

-- The JSON of a line, behind the "data:" of an event stream.
unfoldable pub payload : List ℕ → List ℕ
unfolding trim starts_with bytes
payload line =
    if starts_with (trim line) (bytes "data:") then trim (drop 5 (trim line)) else trim line

unfoldable pub is_object : List ℕ → Bool
is_object [] = false
is_object (c ∷ s) = nat_eq c b'{'

-- What a "message_start" event says; its output counts where it is not 0.
unfoldable pub started : String → RespUsage → Found → Found
started model u s = if model == "" then s else record s {
  seen = true;
  model = model;
  usage = record u { output = if ltb 0 u.output then u.output else s.usage.output };
}

unfoldable pub progressed : RespUsage → Found → Found
progressed u s =
    if ltb 0 u.output then record s { usage = record (s.usage) { output = u.output } } else s

unfoldable pub completed : String → RespUsage → Found → Found
completed model u s = if model == "" then s else record s { seen = true; model = model; usage = u }

-- A byte before the first of some lines.
unfoldable pub lengthened : ℕ → List (List ℕ) → List ℕ → List (List ℕ) × List ℕ
lengthened c [] rest = ([], c ∷ rest)
lengthened c (l ∷ ls) rest = ((c ∷ l) ∷ ls, rest)

-- The lines that have ended, and the one that has not.
unfoldable pub break_lines : List ℕ → List (List ℕ) × List ℕ
unfolding lengthened
break_lines [] = ([], [])
break_lines (c ∷ s) =
    let r = break_lines s in
    elim (nat_eq c newline) [ true ↦ ([] ∷ r.0, r.1) | false ↦ lengthened c r.0 r.1 ]

unfoldable pub capped : List ℕ → List ℕ
capped line = if ltb max_line (length line) then drop (length line - max_line) line else line

-- meteringBody, with the events that its recorder was given.
pub record Body : Type 0 where
  pub scan : Scanner
  pub done : Bool
  pub recorded : List Usage

-- The event that emit fills in.
unfoldable pub filled : Usage → Found → Usage
filled base s = record base {
  model = s.model;
  input = s.usage.input;
  output = s.usage.output;
  cache_creation = s.usage.cache_creation;
  cache_creation_1h = s.usage.cache_hour;
  cache_read = s.usage.cache_read;
}

-- A call of the body's reader: the bytes that it got and whether they were the last ones, or its end.
pub data Call : Type 0 where
  reads : List ℕ → Bool → Call
  closes : Call

module _ (read_start : List ℕ → Option (String × RespUsage))
    (read_delta : List ℕ → Option RespUsage)
    (read_body : List ℕ → Option (String × RespUsage)) where
  unfoldable pub process_payload : List ℕ → Found → Found
  unfolding is_object contains started progressed completed
  process_payload json s =
      if not (is_object json)
      then s
      else if contains json "\"message_start\""
      then elim (read_start json) [ some (model, u) ↦ started model u s | none ↦ s ]
      else if contains json "\"message_delta\""
      then elim (read_delta json) [ some u ↦ progressed u s | none ↦ s ]
      else if contains json "\"usage\"" && contains json "\"model\""
      then elim (read_body json) [ some (model, u) ↦ completed model u s | none ↦ s ]
      else s

  -- processLine
  unfoldable pub process_line : List ℕ → Found → Found
  unfolding payload process_payload
  process_line line s = process_payload (payload line) s

  unfoldable pub process_lines : List (List ℕ) → Found → Found
  unfolding process_line
  process_lines [] s = s
  process_lines (l ∷ ls) s = process_lines ls (process_line l s)

  -- feed
  unfoldable pub feed : List ℕ → Scanner → Scanner
  unfolding break_lines process_lines capped
  feed p s =
      let lines = break_lines (s.line ++ p) in
      record { line = capped lines.1; found = process_lines lines.0 s.found }

  -- finish
  unfoldable pub finish : Scanner → Scanner
  unfolding process_line
  finish s = elim s.line [
    | [] ↦ s
    | c ∷ rest ↦ record { line = []; found = process_line (c ∷ rest) s.found }
  ]

  -- emit, with a recorder
  unfoldable pub emit : Usage → Body → Body
  unfolding finish filled
  emit base b =
      if b.done
      then b
      else if (finish b.scan).found.seen
      then record b {
        scan = finish b.scan;
        done = true;
        recorded = b.recorded ++ filled base ((finish b.scan).found) ∷ [];
      }
      else record b { scan = finish b.scan; done = true }

  -- Read and Close
  unfoldable pub respond : Usage → Call → Body → Body
  unfolding feed emit
  respond base (reads [] eof) b = if eof then emit base b else b
  respond base (reads (c ∷ p) eof) b =
      let fed = record b { scan = feed (c ∷ p) b.scan } in if eof then emit base fed else fed
  respond base closes b = emit base b

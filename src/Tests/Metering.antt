-- ===== src/Tests/Metering.antt =====
-- internal/gateway/metering.go: a response in two reads.
use clawdh.Base.{
  ℕ, ◌≡◌, refl, String, List, [], ◌∷◌, ◌++◌, Option, none, some, true, map, newline, bytes,
  starts_with, index_of,
}
use clawdh.Gateway.Metering.{finish, feed, filled, RespUsage, closes, max_line}
use clawdh.Gateway.Metering.Chunks.{short_lines, joined}
use clawdh.Gateway.Metering.Emitted.{
  new_body, ending, last_bytes, chunk, respond_all, usage_of, respond_all-usage_of,
}
use clawdh.Tests.Server.{row}

abbrev counts : RespUsage
counts = record { input = 3; output = 4; cache_creation = 0; cache_read = 0; cache_hour = 0 }

unfoldable read_body : List ℕ → Option (String × RespUsage)
read_body json = some ("opus", counts)

unfoldable read_delta : List ℕ → Option RespUsage
read_delta json = none

abbrev first : List ℕ
first = 123 ∷ 34 ∷ 117 ∷ 115 ∷ 97 ∷ 103 ∷ 101 ∷ 34 ∷ []

abbrev second : List ℕ
second = 34 ∷ 109 ∷ 111 ∷ 100 ∷ 101 ∷ 108 ∷ 34 ∷ newline ∷ []

one_row : usage_of read_body read_delta read_body row (first ++ second) ≡ row ∷ []
unfolding usage_of read_body bytes starts_with index_of finish feed filled
one_row = refl

short : short_lines max_line (joined (first ∷ []) ++ last_bytes (some second)) ≡ true
unfolding short_lines joined
short = refl

respond_all-usage_of_example :
    (respond_all read_body read_delta read_body row
      (map chunk (first ∷ []) ++ ending (some second) ∷ closes ∷ [])
      new_body).recorded
    ≡ usage_of read_body read_delta read_body row (joined (first ∷ []) ++ last_bytes (some second))
respond_all-usage_of_example =
    respond_all-usage_of read_body read_delta read_body row (first ∷ []) (some second) (closes ∷ [])
      short

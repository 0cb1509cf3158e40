-- ===== src/Panel/Spans.antt =====
-- Spans of time in words: `humanDuration` of panel/store.go, `inWords` of panel/loginend.go. A span
-- is its size in nanoseconds.
use clawdh.Base.{
  ℕ, ◌+◌, ◌*◌, ◌/◌, String, ltb, leb, nat_eq, if◌then◌else◌, ◌<>◌, itoa, minute, hour, day,
}

-- d.Round(unit) in units: to the nearest, halves up.
rounded : ℕ → ℕ → ℕ
rounded span unit = (span + unit / 2) / unit

unfoldable pub human_duration : ℕ → String
unfolding rounded
human_duration span =
    let h = rounded span hour in
    if ltb h 1
    then itoa (rounded span minute) <> " minutes"
    else if nat_eq h 1
    then "an hour"
    else if ltb h 24
    then itoa h <> " hours"
    else if nat_eq h 24
    then "a day"
    else if ltb h (24 * 7)
    then itoa (h / 24) <> " days"
    else if nat_eq h (24 * 7)
    then "a week"
    else itoa (h / (24 * 7)) <> " weeks"

counted : ℕ → String → String
counted n one = if nat_eq n 1 then "1 " <> one else itoa n <> " " <> one <> "s"

unfoldable pub in_words : ℕ → String
unfolding counted
in_words span =
    if leb (2 * day) span
    then counted (span / day) "day"
    else if leb hour span
    then counted (span / hour) "hour"
    else if leb minute span
    then counted (span / minute) "minute"
    else "under a minute"

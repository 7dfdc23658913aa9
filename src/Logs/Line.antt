-- ===== src/Logs/Line.antt =====
-- Lines of the log and how they are read (log_stream.go, domain/types.go).
use v2ray_e.Base.{
  ℕ, zero, suc, ◌||◌, [], ◌∷◌, Option, none, some, ltb, ◌==◌, if◌then◌else◌, length, take, drop,
}
use v2ray_e.Base.Text.{Text, txt, text_eq, trim_space, has_prefix, to_lower, cut}

pub record LogLine : Type 0 where
  pub timestamp : Text
  pub level : Text
  pub source : Text
  pub message : Text

-- The byte at an index.
unfoldable pub byte_at : ℕ → Text → Option ℕ
byte_at n [] = none
byte_at zero (c ∷ s) = some c
byte_at (suc n) (c ∷ s) = byte_at n s

-- `strings.TrimRight(raw, "\r")`
unfoldable pub trim_returns : Text → Text
trim_returns [] = []
trim_returns (c ∷ s) =
    let rest = trim_returns s in
    elim rest [ [] ↦ if c == 13 then [] else c ∷ [] | d ∷ t ↦ c ∷ d ∷ t ]

-- "[level] message", behind the "[": `none` where no "]" ends the level.
unfoldable pub bracketed : Text → Option (Text × Text)
unfolding cut trim_space to_lower
bracketed s = elim (cut b']' s) [
  | none ↦ none
  | some (level, message) ↦ some (to_lower level, trim_space message)
]

abbrev pub core_line : Text → Text → Text → LogLine
core_line ts level message = record {
  timestamp = ts;
  level = level;
  source = txt "xray-core";
  message = message;
}

-- What follows the timestamp of a line. Where the level does not end, the message is the whole line.
unfoldable pub parse_rest : Text → Text → Text → LogLine
unfolding bracketed has_prefix
parse_rest raw ts rest =
    if has_prefix rest (txt "[")
    then elim (bracketed (drop 1 rest)) [
      | none ↦ core_line ts (txt "info") raw
      | some (level, message) ↦ core_line ts level message
    ]
    else core_line ts (txt "info") rest

unfoldable pub parse_trimmed : Text → Text → LogLine
unfolding byte_at parse_rest trim_space
parse_trimmed now raw = elim (if ltb 20 (length raw) then byte_at 19 raw else none) [
  | none ↦ core_line now (txt "info") raw
  | some c ↦
      if c == 32
      then parse_rest raw (take 19 raw) (trim_space (drop 20 raw))
      else core_line now (txt "info") raw
]

-- `parseLine`, at the time `now`.
unfoldable pub parse_line : Text → Text → LogLine
unfolding parse_trimmed trim_returns
parse_line now raw = parse_trimmed now (trim_returns raw)

unfoldable pub norm_level : Text → Text
unfolding text_eq
norm_level s =
    if text_eq s (txt "warning") || text_eq s (txt "warn")
    then txt "warning"
    else if text_eq s (txt "error")
    then txt "error"
    else if text_eq s (txt "debug")
    then txt "debug"
    else txt "info"

-- The line that `Handle` dispatches for a message of the core, at the time `now`.
unfoldable pub handled_line : Text → Text → LogLine
unfolding bracketed norm_level has_prefix
handled_line now raw = elim (if has_prefix raw (txt "[") then bracketed (drop 1 raw) else none) [
  | none ↦ core_line now (txt "info") raw
  | some (level, message) ↦ core_line now (norm_level level) message
]

-- The line that `AppLog` dispatches.
unfoldable pub app_line : Text → Text → Text → LogLine
app_line now level message = record {
  timestamp = now;
  level = level;
  source = txt "app";
  message = message;
}

-- ===== src/Rule/Words/Suggestion.antt =====
-- What `bestMatch` returns.
use otelcol_config_lint.Base.{Bool, List, String, true, ℕ, ◌<◌, ◌≡◌, ◌≤◌, ◌⊎◌}
use otelcol_config_lint.Base.Text.{same_codes, codes, utf8}
use otelcol_config_lint.Rule.Words.{edit_distance, squash, trimmed_of}

abbrev distance_to : List ℕ → String → ℕ
distance_to trimmed c = edit_distance (utf8 trimmed) (utf8 (codes c))

abbrev same_squashed : List ℕ → String → Bool
same_squashed trimmed c = same_codes (squash (codes c)) (squash trimmed)

-- Why a candidate may be suggested: it is the name but for underscores, or two edits away at most.
abbrev pub IsClose : String → String → Type 0
IsClose got c = (same_squashed (trimmed_of got) c ≡ true) ⊎ (distance_to (trimmed_of got) c ≤ 2)

Close : List ℕ → ℕ → String → Type 0
Close trimmed limit c = (same_squashed trimmed c ≡ true) ⊎ (distance_to trimmed c < limit)

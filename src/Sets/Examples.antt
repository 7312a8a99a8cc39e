-- ===== src/Sets/Examples.antt =====
-- Runs and witnesses for the sets.
use otelcol_config_lint.Base.{◌||◌, nat_eq, List, [], not, refl, true, ℕ, ◌&&◌, ◌↔◌, ◌∷◌, ◌≡◌}
use otelcol_config_lint.Sets.{union, equal, has, intersection, difference, delete}
use otelcol_config_lint.Sets.Same.{equal_iff}
use otelcol_config_lint.Sets.Laws.{has_operations}

abbrev small : List ℕ
small = 1 ∷ 2 ∷ []

abbrev other : List ℕ
other = 2 ∷ 3 ∷ []

abbrev turned : List ℕ
turned = 2 ∷ 1 ∷ []

equal_iff_example : (equal small turned ≡ true) ↔ ((x : ℕ) → has small x ≡ has turned x)
equal_iff_example = equal_iff small turned (refl, (refl, tt)) (refl, (refl, tt))

has_operations_example :
    (has (union small other) 2 ≡ (has small 2 || has other 2))
    × (has (intersection small other) 2 ≡ (has small 2 && has other 2))
    × (has (difference small other) 2 ≡ (has small 2 && not (has other 2)))
    × (has (delete small other) 2 ≡ (has small 2 && not (has other 2)))
has_operations_example = has_operations small other 2

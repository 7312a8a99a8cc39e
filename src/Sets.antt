-- ===== src/Sets.antt =====
-- pkg/sets/sets.go: sets built on a map. A set is the list of the map's keys, each once; their order
-- stands for the map's order, which Go leaves open.
pub mod Laws
pub mod Same
mod Examples
use otelcol_config_lint.Base.{
  Bool, Equality, List, [], contains_func, false, if◌then◌else◌, length, ltb, nat_eq, not,
  string_eq, true, ◌&&◌, ◌++◌, ◌==◌, ◌||◌, ◌∷◌,
}

module _ {ℓ} {A : Type ℓ} ⦃e : Equality A⦄ where
  -- `Has`
  abbrev pub has : List A → A → Bool
  has [] x = false
  has (y ∷ s) x = y == x || has s x

  -- `s[item] = Empty{}`: a key that is there stays where it is
  unfoldable pub insert_one : List A → A → List A
  insert_one s x = if has s x then s else s ++ x ∷ []

  -- `Insert`
  unfoldable pub insert : List A → List A → List A
  unfolding insert_one
  insert s [] = s
  insert s (x ∷ items) = insert (insert_one s x) items

  -- `New`
  unfoldable pub new : List A → List A
  unfolding insert
  new items = insert [] items

  -- `delete(s, item)`
  unfoldable pub delete_one : List A → A → List A
  delete_one [] x = []
  delete_one (y ∷ s) x = let rest = delete_one s x in if y == x then rest else y ∷ rest

  -- `Delete`
  unfoldable pub delete : List A → List A → List A
  unfolding delete_one
  delete s [] = s
  delete s (x ∷ items) = delete (delete_one s x) items

  -- `HasAll`
  unfoldable pub has_all : List A → List A → Bool
  has_all s [] = true
  has_all s (x ∷ items) = let rest = has_all s items in if not (has s x) then false else rest

  -- `HasAny`
  unfoldable pub has_any : List A → List A → Bool
  has_any s items = contains_func items (has s)

  -- `Union`: `maps.Copy` of one set and then of the other into an empty one
  unfoldable pub union : List A → List A → List A
  unfolding insert
  union s other = insert (insert [] s) other

  -- the loop of `Intersection` over the smaller set
  pub both_in : List A → List A → List A
  both_in [] large = []
  both_in (x ∷ small) large =
      let rest = both_in small large in if has large x then x ∷ rest else rest

  -- `Intersection`
  unfoldable pub intersection : List A → List A → List A
  unfolding both_in
  intersection s other = if ltb (length other) (length s) then both_in other s else both_in s other

  -- `Difference`
  unfoldable pub difference : List A → List A → List A
  difference [] other = []
  difference (x ∷ s) other =
      let rest = difference s other in if not (has other x) then x ∷ rest else rest

  -- `IsSuperset`
  unfoldable pub is_superset : List A → List A → Bool
  is_superset s [] = true
  is_superset s (x ∷ other) =
      let rest = is_superset s other in if not (has s x) then false else rest

  -- `Equal`
  unfoldable pub equal : List A → List A → Bool
  unfolding is_superset
  equal s other = length s == length other && is_superset s other

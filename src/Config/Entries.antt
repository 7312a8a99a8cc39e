-- ===== src/Config/Entries.antt =====
-- pkg/config/parse.go: `entries`, `join`, `collectDuplicates` and the paths that they write.
pub mod Duplicates
use Prim.Native.String.{◌++◌ as str_append}
use otelcol_config_lint.Base.{
  List, Option, String, [], if◌then◌else◌, nat_eq, none, some, string_eq, ℕ, ◌++◌, ◌+◌, ◌==◌, ◌∷◌,
}
use otelcol_config_lint.Base.Text.{itoa}
use otelcol_config_lint.Sets.{has, insert_one}
use otelcol_config_lint.Yaml.{
  Node, Nodes, alias, alias_target, cons, mapping, nil, scalar, sequence, to_list, value_of,
}

-- `Entry`
pub record Entry : Type 0 where
  pub key : String
  pub key_node : Node
  pub node : Node
  pub path : String

unfoldable pub join : String → String → String
join parent key = if parent == "" then key else str_append parent (str_append "." key)

unfoldable pub index_path : String → ℕ → String
unfolding itoa
index_path path i = str_append path (str_append "[" (str_append (itoa i) "]"))

-- the loop of `entries`, two children at a time
unfoldable pub pairs : List Node → String → List Entry
unfolding join alias_target
pairs (k ∷ v ∷ rest) parent =
    let key = value_of (alias_target k) in
    record { key = key; key_node = k; node = v; path = join parent key } ∷ pairs rest parent
pairs _ parent = []

unfoldable pub entries_of : Node → String → List Entry
unfolding pairs
entries_of (mapping _ ns) parent = pairs (to_list ns) parent
entries_of _ parent = []

-- `entries`, whose node may be nil
unfoldable pub entries : Option Node → String → List Entry
unfolding entries_of
entries none parent = []
entries (some n) parent = entries_of n parent

-- `collectDuplicates`: the document in order, with the keys seen so far of the mapping that is read
unfoldable mutual
  pub collect_duplicates : Node → String → List Entry
  collect_duplicates (mapping _ ns) path = duplicates_in ns [] path
  collect_duplicates (sequence _ ns) path = duplicates_items ns 0 path
  collect_duplicates (scalar _) path = []
  collect_duplicates (alias _ _) path = []

  pub duplicates_in : Nodes → List String → String → List Entry
  duplicates_in nil seen path = []
  duplicates_in (cons k nil) seen path = []
  duplicates_in (cons k (cons v rest)) seen path =
      let key = value_of (alias_target k) in
      let here : Entry = record { key = key; key_node = k; node = v; path = join path key } in
      let inside = collect_duplicates v (join path key) in
      let behind = duplicates_in rest (insert_one seen key) path in
      if has seen key then here ∷ (inside ++ behind) else inside ++ behind

  pub duplicates_items : Nodes → ℕ → String → List Entry
  duplicates_items nil i path = []
  duplicates_items (cons item rest) i path =
      collect_duplicates item (index_path path i) ++ duplicates_items rest (i + 1) path

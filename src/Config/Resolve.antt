-- ===== src/Config/Resolve.antt =====
-- pkg/config/resolve.go: aliases and merge keys are rewritten away. Nodes that are shared are
-- rewritten once in the program; here each alias has its own copy, which is rewritten alike.
pub mod Merge
pub mod Aliases
use otelcol_config_lint.Base.{List, String, [], if◌then◌else◌, nat_eq, string_eq, ◌++◌, ◌==◌, ◌∷◌}
use otelcol_config_lint.Sets.{has, insert_one, new}
use otelcol_config_lint.Yaml.{
  Node, Nodes, alias, append, cons, content, mapping, nil, scalar, sequence, tag_of, to_list,
  value_of,
}

abbrev pub merge_tag : String
merge_tag = "!!merge"

-- the inner loop of `mergedEntries`: the pairs of one source whose keys are not yet seen
abbrev pub Picked : Type 0
Picked = List String × Nodes

pub pick : List String → Nodes → Picked
pick seen nil = (seen, nil)
pick seen (cons k nil) = (seen, nil)
pick seen (cons k (cons v rest)) =
    let kept = pick (insert_one seen (value_of k)) rest in
    let skipped = pick seen rest in
    if has seen (value_of k) then skipped else (kept.0, cons k (cons v kept.1))

pub pick_all : List String → List Node → Nodes
pick_all seen [] = nil
pick_all seen (src ∷ rest) =
    let (seen', out) = pick seen (content src) in append out (pick_all seen' rest)

-- the keys of `local`
pub keys_of : Nodes → List String
keys_of nil = []
keys_of (cons k nil) = value_of k ∷ []
keys_of (cons k (cons v rest)) = value_of k ∷ keys_of rest

-- `mergedEntries`
unfoldable pub merged_entries : Nodes → List Node → Nodes
unfolding pick pick_all keys_of
merged_entries local [] = nil
merged_entries local (src ∷ rest) = pick_all (new (keys_of local)) (src ∷ rest)

-- what `mergeSources` returns of the resolved value of a merge key
abbrev pub sources_of : Node → List Node
sources_of (mapping a ns) = mapping a ns ∷ []
sources_of n = to_list (content n)

-- `value`, `walk` and `mapping`: what a node stands for. The mapping's children are read in pairs,
-- with the local ones and the merged sources found so far.
unfoldable mutual
  pub resolve : Node → Node
  resolve (alias _ n) = resolve n
  resolve (scalar a) = scalar a
  resolve (sequence a ns) = sequence a (resolve_items ns)
  resolve (mapping a ns) =
      let (local, merged) = resolve_pairs ns in
      mapping a (append local (merged_entries local merged))

  pub resolve_items : Nodes → Nodes
  resolve_items nil = nil
  resolve_items (cons n ns) = cons (resolve n) (resolve_items ns)

  pub resolve_pairs : Nodes → Nodes × List Node
  resolve_pairs nil = (nil, [])
  resolve_pairs (cons k nil) = (nil, [])
  resolve_pairs (cons k (cons v rest)) =
      let (local, merged) = resolve_pairs rest in
      if tag_of k == merge_tag
      then (local, sources_of (resolve v) ++ merged)
      else (cons (resolve k) (cons (resolve v) local), merged)

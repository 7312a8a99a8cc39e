-- ===== src/Rule/Node.antt =====
-- pkg/rule/node.go: how rules read the node tree, and what counts as a confmap expansion.
use Prim.Native.Char.{code}
use otelcol_config_lint.Base.{
  Bool, List, Option, String, [], false, if◌then◌else◌, leb, nat_eq, none, some, string_eq, suc,
  true, zero, ℕ, ◌&&◌, ◌==◌, ◌||◌, ◌∷◌,
}
use otelcol_config_lint.Config.Entries.{Entry, join}
use otelcol_config_lint.Yaml.{Node, alias, content, mapping, scalar, tag_of, to_list, value_of}

abbrev pub max_settings_depth : ℕ
max_settings_depth = 16

-- the loop of `ResolveAlias`, with the rounds that are left
follow : ℕ → Node → Node
follow zero n = n
follow (suc left) (alias _ n) = follow left n
follow (suc left) n = n

unfoldable pub resolve_alias : Node → Node
unfolding follow
resolve_alias n = follow max_settings_depth n

-- `MapEntries`: unlike `entries` of the parser it reads any node's children, and takes a key's own value.
map_pairs : List Node → String → List Entry
map_pairs (k ∷ v ∷ rest) path =
    record { key = value_of k; key_node = k; node = v; path = join path (value_of k) }
    ∷ map_pairs rest path
map_pairs _ path = []

unfoldable pub map_entries : Node → String → List Entry
unfolding map_pairs join
map_entries n path = map_pairs (to_list (content n)) path

first_child : String → List Entry → Option Node
first_child key [] = none
first_child key (e ∷ es) = if e.key == key then some e.node else first_child key es

child_of : Node → String → Option Node
child_of (mapping a ns) key = first_child key (map_entries (mapping a ns) "")
child_of _ key = none

-- `ChildNode`
unfoldable pub child_node : Node → String → Option Node
unfolding first_child child_of map_entries resolve_alias
child_node n key = child_of (resolve_alias n) key

-- `]}` of the pattern `\$\{[^}]*\}`: a closing brace further on
has_close : String → Bool
has_close String.[] = false
has_close (String.◌∷◌ c s) = code c == b'}' || has_close s

name_start : ℕ → Bool
name_start c = leb b'A' c && leb c b'Z' || leb b'a' c && leb c b'z' || c == b'_'

-- The matches of `expansionRE` from left to right; the flag says that the last character was a dollar
-- that no match has taken. The first match that is not `$$` ends the search.
pub scan : Bool → String → Bool
scan dollar String.[] = false
scan false (String.◌∷◌ c s) =
    let after = scan true s in let on = scan false s in if code c == b'$' then after else on
scan true (String.◌∷◌ c s) =
    let on = scan false s in
    if code c == b'$'
    then on
    else if code c == b'{' && has_close s
    then true
    else if name_start (code c)
    then true
    else on

unfoldable pub has_expansion : String → Bool
unfolding scan has_close name_start
has_expansion s = scan false s

scalar_name_of : Node → Option Node
scalar_name_of (scalar a) = if a.value == "" || has_expansion a.value then none else some (scalar a)
scalar_name_of _ = none

-- `ScalarName`
unfoldable pub scalar_name : Node → Option Node
unfolding scalar_name_of resolve_alias
scalar_name n = scalar_name_of (resolve_alias n)

-- `ScalarChild`
unfoldable pub scalar_child : Node → String → Option Node
unfolding child_node scalar_name
scalar_child n key = elim (child_node n key) [ none ↦ none | some val ↦ scalar_name val ]

expansion_of : Node → Bool
expansion_of (scalar a) = has_expansion a.value
expansion_of _ = false

-- `IsExpansion`
unfoldable pub is_expansion : Option Node → Bool
unfolding expansion_of resolve_alias has_expansion
is_expansion none = false
is_expansion (some n) = expansion_of (resolve_alias n)

-- `IsNull`
unfoldable pub is_null : Option Node → Bool
is_null none = true
is_null (some n) = tag_of n == "!!null"

-- `NodeOr`, where the fallback is there
abbrev pub node_or : Option Node → Node → Node
node_or none fallback = fallback
node_or (some n) fallback = n

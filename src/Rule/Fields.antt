-- ===== src/Rule/Fields.antt =====
-- pkg/rule/fieldwalker.go: component settings against the fields of a schema. The model gives the
-- calls of all callbacks in order; a walker with some callbacks only makes the calls of those.
pub mod Rules
use otelcol_config_lint.Base.{
  Bool, List, Option, String, [], append_if, contains_func, false, for_each, if◌then◌else◌,
  is_empty, is_nil, nat_eq, none, not, some, string_eq, suc, true, zero, ℕ, ◌&&◌, ◌++◌, ◌+◌, ◌==◌,
  ◌||◌, ◌∷◌,
}
use otelcol_config_lint.Base.Text.{concat}
use otelcol_config_lint.Config.Entries.{index_path, join}
use otelcol_config_lint.Config.File.{Component, File, Section}
use otelcol_config_lint.Config.Id.{Kind, id_text, kinds, section_key}
use otelcol_config_lint.Rule.Context.{Context, schema_ready}
use otelcol_config_lint.Rule.Node.{has_expansion, is_null, max_settings_depth}
use otelcol_config_lint.Rule.Settings.{
  bool_tag, decode_quoted_scalar, decode_scalar, float_tag, int_tag, read_duration_of, read_int_of,
  str_tag,
}
use otelcol_config_lint.Rule.Settings.Library.{Scalars}
use otelcol_config_lint.Rule.Words.{list}
use otelcol_config_lint.Diag.{text_lt}
use otelcol_config_lint.Schema.{
  Children, Field, Inventory, Schema, child, child_at, children, info, leaf, lookup,
}
use otelcol_config_lint.Schema.Decoding.{scalar_decoding}
use otelcol_config_lint.Yaml.{
  Node, Nodes, alias, cons, is_mapping, is_scalar, is_sequence, mapping, nil, scalar, sequence,
  tag_of, value_of,
}

-- The calls of `OnUnknown`, `OnRequired`, `OnInvalid`, `OnDeprecated` and `OnSkipped`.
pub data Event : Type 0 where
  on_unknown : String → Node → String → List String → Event
  on_required : String → Node → String → Event
  on_invalid : Node → String → String → Event
  on_deprecated : String → Node → String → String → Event
  on_skipped : String → String → Event

-- `len(field.Children) == 0`
abbrev pub no_children : Field → Bool
no_children f = elim (children f) [ leaf ↦ true | child _ _ _ ↦ false ]

abbrev pub insert_text : String → List String → List String
insert_text s [] = s ∷ []
insert_text s (t ∷ ts) = let rest = insert_text s ts in if text_lt t s then t ∷ rest else s ∷ t ∷ ts

-- `SortedKeys` of the children
unfoldable pub sorted_keys : Children → List String
unfolding text_lt
sorted_keys leaf = []
sorted_keys (child name _ rest) = insert_text name (sorted_keys rest)

-- `statesNoShape`
abbrev pub states_no_shape : Field → Bool
states_no_shape f = (info f).type == "map" && (info f).is_open && no_children f

-- `describeType`
unfoldable pub describe_type : Field → String
describe_type f =
    let type = (info f).type in
    if type == "duration"
    then "a duration such as 5s, 200ms or 1m30s"
    else if type == "map"
    then "a mapping"
    else if type == "list"
    then "a list"
    else concat ("a " ∷ type ∷ [])

abbrev pub is_open_schema : Field → Bool
is_open_schema f =
    (info f).is_open
    || (info f).type == "" && no_children f
    || (info f).type == "map" && no_children f

-- What `checkType` calls, and whether it is safe to descend.
pub record Checked : Type 0 where
  pub calls : List Event
  pub descend : Bool

abbrev checked : List Event → Bool → Checked
checked calls descend = record { calls = calls; descend = descend }

-- the keys that a mapping writes
unfoldable pub keys_in : Nodes → List String
keys_in nil = []
keys_in (cons k nil) = []
keys_in (cons k (cons v rest)) = value_of k ∷ keys_in rest

-- `checkRequired`
unfoldable pub check_required : Field → List String → Node → String → List Event
unfolding join
check_required f present n path = for_each (info f).required (λ req.
    append_if (not (contains_func present (λ k. k == req))) (on_required req n (join path req)))

abbrev fields_of : Option Inventory → Option Field
fields_of none = none
fields_of (some c) = c.fields

module _ (lib : Scalars) (sch : Option Schema) where
  -- `matchesType`
  unfoldable pub matches_type : Field → Node → Bool
  unfolding read_int_of read_duration_of
  matches_type f n =
      let type = (info f).type in
      if type == "map"
      then is_mapping n
      else if type == "list"
      then is_sequence n
      else if type == "string"
      then is_scalar n && tag_of n == str_tag
      else if type == "bool"
      then tag_of n == bool_tag
      else if type == "int"
      then tag_of n == int_tag || tag_of n == float_tag && (read_int_of lib n).known
      else if type == "float"
      then tag_of n == float_tag || tag_of n == int_tag
      else if type == "duration"
      then (read_duration_of lib n).known
      else true

  abbrev is_number_or_bool : String → Bool
  is_number_or_bool type = type == "int" || type == "float" || type == "bool"

  -- `unknownScalar`
  unfoldable pub unknown_scalar : Field → Node → Bool
  unfolding matches_type decode_quoted_scalar scalar_decoding
  unknown_scalar f n =
      if not (tag_of n == str_tag) || not (is_number_or_bool (info f).type)
      then false
      else is_nil (scalar_decoding sch) && matches_type f (decode_quoted_scalar lib n (info f).type)

  -- `checkType`
  unfoldable pub check_type : Field → Node → String → Checked
  unfolding matches_type unknown_scalar decode_scalar describe_type has_expansion list
  check_type f n path =
      if (info f).type == "" || states_no_shape f
      then checked [] true
      else if is_scalar n && has_expansion (value_of n)
      then checked [] false
      else if unknown_scalar f n
      then checked (on_skipped path "unknown_decoder" ∷ []) false
      else if not (matches_type f (decode_scalar lib sch n (info f).type))
      then checked (on_invalid n path (describe_type f) ∷ []) false
      else if not (is_empty (info f).enum)
          && is_scalar n
          && not (contains_func (info f).enum (λ v. v == value_of n))
      then checked (on_invalid n path (concat ("one of " ∷ list (info f).enum ∷ [])) ∷ []) false
      else checked [] true

  -- what happens at a node that is no alias, given what a mapping and a list hold
  unfoldable pub walk_here : Field → Node → String → List Event → List Event → List Event
  unfolding check_type is_null check_required join
  walk_here f n path in_map in_list =
      append_if (is_open_schema f) (on_skipped path "open_schema")
      ++ (if is_null (some n)
          then check_required f [] n path
          else let c = check_type f n path in
            c.calls
            ++ (if not c.descend
                then []
                else if (info f).type == "map" || (info f).type == ""
                then in_map
                else if (info f).type == "list"
                then in_list
                else []))

  -- `walk`, `walkMap` and `walkList`; the first number is the aliases that may still be followed
  unfoldable mutual
    unfolding walk_here check_required keys_in sorted_keys child_at join index_path

    pub walk : ℕ → Field → Node → String → List Event
    walk zero f (alias _ _) path = []
    walk (suc left) f (alias _ n) path = walk left f n path
    walk left f (scalar a) path = walk_here f (scalar a) path [] []
    walk left f (mapping a ns) path =
        let inside = walk_entries f ns path in
        walk_here f (mapping a ns) path
          (inside ++ check_required f (keys_in ns) (mapping a ns) path) []
    walk left f (sequence a ns) path =
        let inside : List Event = elim (child_at (children f) "item") [
          | none ↦ on_skipped path "missing_schema" ∷ []
          | some item ↦ walk_items item ns path 0
        ] in
        walk_here f (sequence a ns) path [] inside

    pub walk_entries : Field → Nodes → String → List Event
    walk_entries f nil path = []
    walk_entries f (cons k nil) path = []
    walk_entries f (cons k (cons v rest)) path =
        let here = join path (value_of k) in
        let behind = walk_entries f rest path in
        elim (child_at (children f) (value_of k)) [
          | some c ↦
              append_if (not ((info c).deprecated == ""))
                (on_deprecated (value_of k) k here (info c).deprecated)
              ++ (walk max_settings_depth c v here ++ behind)
          | none ↦
              append_if (not (info f).is_open && not (no_children f))
                (on_unknown (value_of k) k here (sorted_keys (children f)))
              ++ behind
        ]

    pub walk_items : Field → Nodes → String → ℕ → List Event
    walk_items f nil path i = []
    walk_items f (cons n rest) path i =
        walk max_settings_depth f n (index_path path i) ++ walk_items f rest path (i + 1)

  -- one round of the inner loop of `WalkComponents`
  unfoldable pub walk_component : Schema → Kind → Component → List Event
  unfolding walk lookup id_text
  walk_component s k c =
      let path = concat (section_key k ∷ "." ∷ id_text c.id ∷ []) in
      elim (fields_of (lookup s k c.id.type)) [
        | none ↦ on_skipped path "missing_schema" ∷ []
        | some f ↦ walk max_settings_depth f c.value_node path
      ]

  abbrev walk_section : Schema → Kind → Option Section → List Event
  walk_section s k none = []
  walk_section s k (some sec) = for_each sec.components (walk_component s k)

-- `WalkComponents`
unfoldable pub walk_components : Scalars → Context → List Event
unfolding walk_component schema_ready
walk_components lib ctx = elim ctx.schema [
  | none ↦ []
  | some s ↦
      if not (schema_ready ctx)
      then []
      else for_each kinds (λ k. walk_section lib (some s) s k (ctx.file.sections k))
]

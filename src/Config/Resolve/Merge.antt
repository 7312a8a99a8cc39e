-- ===== src/Config/Resolve/Merge.antt =====
-- What a mapping says of a key after its merge keys are resolved.
use mathlib.Core.Path.{ap₂}
use otelcol_config_lint.Base.{
  ◌&&◌, ◌++◌, ◌∙◌, sym, ap, eq_iff, Bool-cases, List, Option, String, [], arith, if◌then◌else◌, inl,
  inr, is_nil, nat_eq, none, not, refl, some, string_eq, ◌==◌, ◌||◌, ◌∷◌, ◌≡◌,
}
use otelcol_config_lint.Config.Resolve.{
  sources_of, keys_of, merge_tag, merged_entries, pick, pick_all, resolve, resolve_pairs,
}
use otelcol_config_lint.Sets.{has, insert_one, new}
use otelcol_config_lint.Sets.Laws.{has-insert_one, has-insert}
use otelcol_config_lint.Yaml.{
  scalar, sequence, alias, to_list, Attrs, Node, Nodes, append, cons, content, mapping, nil, tag_of,
  value_of,
}

-- The value of the first pair with the key.
abbrev pub value_at : String → Nodes → Option Node
value_at key nil = none
value_at key (cons k nil) = none
value_at key (cons k (cons v rest)) =
    let later = value_at key rest in if value_of k == key then some v else later

abbrev pub or_else {ℓ} : {A : Type ℓ} → Option A → Option A → Option A
or_else none o = o
or_else (some a) o = some a

-- The value of the first of the mappings that has the key.
abbrev pub first_of : String → List Node → Option Node
first_of key [] = none
first_of key (src ∷ rest) = or_else (value_at key (content src)) (first_of key rest)

abbrev IsPaired : Nodes → Type 0
IsPaired nil = Unit
IsPaired (cons k nil) = ⊥
IsPaired (cons k (cons v rest)) = IsPaired rest

value_at-append :
    (key : String) (ns ms : Nodes)
    → IsPaired ns
    → value_at key (append ns ms) ≡ or_else (value_at key ns) (value_at key ms)
value_at-append key nil ms p = refl
value_at-append key (cons k nil) ms p = absurd p
value_at-append key (cons k (cons v rest)) ms p = ground (arith, value_at-append key rest ms p)

pick-IsPaired : (seen : List String) (ns : Nodes) → IsPaired (pick seen ns).1
unfolding pick
pick-IsPaired seen nil = tt
pick-IsPaired seen (cons k nil) = tt
pick-IsPaired seen (cons k (cons v rest)) = elim (Bool-cases (has seen (value_of k))) [
  | inl e ↦ rw e (pick-IsPaired seen rest)
  | inr e ↦ rw e (pick-IsPaired (insert_one seen (value_of k)) rest)
]

abbrev unless_seen : List String → String → Option Node → Option Node
unless_seen seen key o = if has seen key then none else o

value_at-pick :
    (key : String) (seen : List String) (ns : Nodes)
    → value_at key (pick seen ns).1 ≡ unless_seen seen key (value_at key ns)
unfolding pick
value_at-pick key seen nil = ground arith
value_at-pick key seen (cons k nil) = ground arith
value_at-pick key seen (cons k (cons v rest)) = elim (Bool-cases (has seen (value_of k))) [
  | inl e ↦ rw e (
      ground (
        arith,
        e,
        value_at-pick key seen rest,
        eq_iff (value_of k) key,
        λ (p : value_of k ≡ key). ap (has seen) p,
      ))
  | inr e ↦ rw e (
      ground (
        arith,
        e,
        value_at-pick key (insert_one seen (value_of k)) rest,
        has-insert_one seen (value_of k) key,
        eq_iff (value_of k) key,
        λ (p : value_of k ≡ key). ap (has seen) p,
      ))
]

has-pick :
    (key : String) (seen : List String) (ns : Nodes)
    → has (pick seen ns).0 key ≡ (has seen key || not (is_nil (value_at key ns)))
unfolding pick
has-pick key seen nil = ground arith
has-pick key seen (cons k nil) = ground arith
has-pick key seen (cons k (cons v rest)) = elim (Bool-cases (has seen (value_of k))) [
  | inl e ↦ rw e (
      ground (
        arith,
        e,
        has-pick key seen rest,
        eq_iff (value_of k) key,
        λ (p : value_of k ≡ key). ap (has seen) p,
      ))
  | inr e ↦ rw e (
      ground (
        arith,
        e,
        has-pick key (insert_one seen (value_of k)) rest,
        has-insert_one seen (value_of k) key,
        eq_iff (value_of k) key,
      ))
]

value_at-pick_all :
    (key : String) (seen : List String) (srcs : List Node)
    → value_at key (pick_all seen srcs) ≡ unless_seen seen key (first_of key srcs)
unfolding pick_all
value_at-pick_all key seen [] = ground arith
value_at-pick_all key seen (src ∷ rest) =
    let picked = pick seen (content src) in
    ground (
      arith,
      value_at-append key picked.1 (pick_all picked.0 rest) (pick-IsPaired seen (content src)),
      value_at-pick key seen (content src),
      has-pick key seen (content src),
      value_at-pick_all key picked.0 rest,
    )

value_at-keys_of :
    (key : String) (ns : Nodes)
    → IsPaired ns
    → has (keys_of ns) key ≡ not (is_nil (value_at key ns))
unfolding keys_of
value_at-keys_of key nil p = refl
value_at-keys_of key (cons k nil) p = absurd p
value_at-keys_of key (cons k (cons v rest)) p = ground (arith, value_at-keys_of key rest p)

value_at-merged :
    (key : String) (local : Nodes) (merged : List Node)
    → IsPaired local
    → value_at key (append local (merged_entries local merged))
      ≡ or_else (value_at key local) (first_of key merged)
unfolding merged_entries new
value_at-merged key local [] p = value_at-append key local nil p
value_at-merged key local (src ∷ rest) p = ground (
  arith,
  value_at-append key local (pick_all (new (keys_of local)) (src ∷ rest)) p,
  value_at-pick_all key (new (keys_of local)) (src ∷ rest),
  has-insert [] (keys_of local) key,
  value_at-keys_of key local p,
)

resolve_pairs-IsPaired : (ns : Nodes) → IsPaired (resolve_pairs ns).0
unfolding resolve
resolve_pairs-IsPaired nil = tt
resolve_pairs-IsPaired (cons k nil) = tt
resolve_pairs-IsPaired (cons k (cons v rest)) = elim (Bool-cases (tag_of k == merge_tag)) [
  | inl e ↦ rw e (resolve_pairs-IsPaired rest)
  | inr e ↦ rw e (resolve_pairs-IsPaired rest)
]

-- The value of the first pair that is no merge and whose key, once resolved, is `key`.
abbrev pub own_value : String → Nodes → Option Node
own_value key nil = none
own_value key (cons k nil) = none
own_value key (cons k (cons v rest)) =
    let later = own_value key rest in
    if not (tag_of k == merge_tag) && value_of (resolve k) == key then some (resolve v) else later

-- The value of the first item, in the order they are written, that has the key.
abbrev in_items : String → Nodes → Option Node
in_items key nil = none
in_items key (cons n ns) = or_else (value_at key (content n)) (in_items key ns)

-- What the value of a merge key says: a mapping by itself, a list by its items.
abbrev in_source : String → Node → Option Node
in_source key (mapping a ns) = value_at key ns
in_source key n = in_items key (content n)

-- The merge keys, in the order they are written: the first that has the key.
abbrev pub merged_value : String → Nodes → Option Node
merged_value key nil = none
merged_value key (cons k nil) = none
merged_value key (cons k (cons v rest)) =
    let later = merged_value key rest in
    if tag_of k == merge_tag then or_else (in_source key (resolve v)) later else later

or_else_assoc : (a b c : Option Node) → or_else (or_else a b) c ≡ or_else a (or_else b c)
or_else_assoc none b c = refl
or_else_assoc (some a) b c = refl

first_of-append :
    (key : String) (xs ys : List Node)
    → first_of key (xs ++ ys) ≡ or_else (first_of key xs) (first_of key ys)
first_of-append key [] ys = refl
first_of-append key (x ∷ xs) ys =
    ap (or_else (value_at key (content x))) (first_of-append key xs ys)
    ∙ sym (or_else_assoc (value_at key (content x)) (first_of key xs) (first_of key ys))

first_of-to_list : (key : String) (ns : Nodes) → first_of key (to_list ns) ≡ in_items key ns
first_of-to_list key nil = refl
first_of-to_list key (cons n ns) = ap (or_else (value_at key (content n))) (first_of-to_list key ns)

or_else-none : (o : Option Node) → or_else o none ≡ o
or_else-none none = refl
or_else-none (some a) = refl

first_of-sources_of : (key : String) (n : Node) → first_of key (sources_of n) ≡ in_source key n
first_of-sources_of key (mapping a ns) = or_else-none (value_at key ns)
first_of-sources_of key (scalar a) = first_of-to_list key (content (scalar a))
first_of-sources_of key (sequence a ns) = first_of-to_list key (content (sequence a ns))
first_of-sources_of key (alias a n) = first_of-to_list key (content (alias a n))

resolve_pairs-own :
    (key : String) (ns : Nodes) → value_at key (resolve_pairs ns).0 ≡ own_value key ns
unfolding resolve
resolve_pairs-own key nil = refl
resolve_pairs-own key (cons k nil) = refl
resolve_pairs-own key (cons k (cons v rest)) = elim (Bool-cases (tag_of k == merge_tag)) [
  | inl e ↦ rw e (resolve_pairs-own key rest)
  | inr e ↦ rw e (
      ap (λ o. if value_of (resolve k) == key then some (resolve v) else o)
        (resolve_pairs-own key rest))
]

resolve_pairs-merged :
    (key : String) (ns : Nodes) → first_of key (resolve_pairs ns).1 ≡ merged_value key ns
unfolding resolve
resolve_pairs-merged key nil = refl
resolve_pairs-merged key (cons k nil) = refl
resolve_pairs-merged key (cons k (cons v rest)) = elim (Bool-cases (tag_of k == merge_tag)) [
  | inl e ↦ rw e (
      first_of-append key (sources_of (resolve v)) (resolve_pairs rest).1
      ∙ ap₂ or_else (first_of-sources_of key (resolve v)) (resolve_pairs-merged key rest))
  | inr e ↦ rw e (resolve_pairs-merged key rest)
]

-- After `resolve`, a mapping answers a key with the first value that it writes itself, and else with
-- the value of the first mapping that has the key among those that its merge keys name: the merge
-- keys are read in the order they are written, and so are the items of a list under one of them.
pub value_at-resolve :
    (key : String) (a : Attrs) (ns : Nodes)
    → value_at key (content (resolve (mapping a ns)))
      ≡ or_else (own_value key ns) (merged_value key ns)
unfolding resolve merged_entries
value_at-resolve key a ns =
    value_at-merged key (resolve_pairs ns).0 (resolve_pairs ns).1 (resolve_pairs-IsPaired ns)
    ∙ ap₂ or_else (resolve_pairs-own key ns) (resolve_pairs-merged key ns)

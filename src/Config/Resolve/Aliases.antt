-- ===== src/Config/Resolve/Aliases.antt =====
-- `resolve` leaves no alias.
use otelcol_config_lint.Base.{
  Bool, Bool-cases, List, String, [], arith, contains_func, false, inl, inr, nat_eq, refl,
  string_eq, true, ◌++◌, ◌==◌, ◌||◌, ◌∷◌, ◌≡◌,
}
use otelcol_config_lint.Config.Resolve.{
  keys_of, merge_tag, merged_entries, pick, pick_all, resolve, resolve_items, resolve_pairs,
  sources_of,
}
use otelcol_config_lint.Sets.{has, insert_one, new}
use otelcol_config_lint.Yaml.{
  Node, Nodes, alias, append, cons, content, mapping, nil, scalar, sequence, tag_of, to_list,
  value_of,
}

-- Whether an alias stands anywhere in the tree.
unfoldable mutual
  pub has_alias : Node → Bool
  has_alias (alias _ _) = true
  has_alias (scalar _) = false
  has_alias (sequence _ ns) = any_alias ns
  has_alias (mapping _ ns) = any_alias ns

  pub any_alias : Nodes → Bool
  any_alias nil = false
  any_alias (cons n ns) = has_alias n || any_alias ns

abbrev source_alias : List Node → Bool
source_alias srcs = contains_func srcs has_alias

any_alias-append : (ns ms : Nodes) → any_alias (append ns ms) ≡ (any_alias ns || any_alias ms)
unfolding has_alias
any_alias-append nil ms = refl
any_alias-append (cons n ns) ms = ground (arith, any_alias-append ns ms)

any_alias-pick :
    (seen : List String) (ns : Nodes) → any_alias ns ≡ false → any_alias (pick seen ns).1 ≡ false
unfolding pick has_alias
any_alias-pick seen nil h = refl
any_alias-pick seen (cons k nil) h = refl
any_alias-pick seen (cons k (cons v rest)) h = elim (Bool-cases (has seen (value_of k))) [
  | inl e ↦ rw e (any_alias-pick seen rest (ground (arith, h)))
  | inr e ↦
      rw e
        (ground (arith, h, any_alias-pick (insert_one seen (value_of k)) rest (ground (arith, h))))
]

any_alias-content : (n : Node) → has_alias n ≡ false → any_alias (content n) ≡ false
unfolding has_alias
any_alias-content (scalar a) h = refl
any_alias-content (mapping a ns) h = h
any_alias-content (sequence a ns) h = h
any_alias-content (alias a n) h = absurd (cc (h))

any_alias-pick_all :
    (seen : List String) (srcs : List Node)
    → source_alias srcs ≡ false
    → any_alias (pick_all seen srcs) ≡ false
unfolding pick_all has_alias
any_alias-pick_all seen [] h = refl
any_alias-pick_all seen (src ∷ rest) h =
    let picked = pick seen (content src) in
    ground (
      arith,
      h,
      any_alias-append picked.1 (pick_all picked.0 rest),
      any_alias-pick seen (content src) (any_alias-content src (ground (arith, h))),
      any_alias-pick_all picked.0 rest (ground (arith, h)),
    )

source_alias-append :
    (xs ys : List Node) → source_alias (xs ++ ys) ≡ (source_alias xs || source_alias ys)
source_alias-append [] ys = refl
source_alias-append (x ∷ xs) ys = ground (arith, source_alias-append xs ys)

source_alias-to_list : (ns : Nodes) → source_alias (to_list ns) ≡ any_alias ns
unfolding has_alias
source_alias-to_list nil = refl
source_alias-to_list (cons n ns) = ground (arith, source_alias-to_list ns)

source_alias-sources_of : (n : Node) → has_alias n ≡ false → source_alias (sources_of n) ≡ false
unfolding has_alias
source_alias-sources_of (scalar a) h = refl
source_alias-sources_of (mapping a ns) h = ground (arith, h)
source_alias-sources_of (sequence a ns) h = ground (arith, h, source_alias-to_list ns)
source_alias-sources_of (alias a n) h = absurd (cc (h))

any_alias-merged_entries :
    (local : Nodes) (merged : List Node)
    → source_alias merged ≡ false
    → any_alias (merged_entries local merged) ≡ false
unfolding merged_entries has_alias
any_alias-merged_entries local [] h = refl
any_alias-merged_entries local (src ∷ rest) h =
    any_alias-pick_all (new (keys_of local)) (src ∷ rest) h

mutual
  unfolding resolve has_alias

  resolve-alias_free : (n : Node) → has_alias (resolve n) ≡ false
  resolve-alias_free (alias a n) = resolve-alias_free n
  resolve-alias_free (scalar a) = refl
  resolve-alias_free (sequence a ns) = items-alias_free ns
  resolve-alias_free (mapping a ns) =
      let pairs = pairs-alias_free ns in
      let local = (resolve_pairs ns).0 in
      let merged = (resolve_pairs ns).1 in
      ground (
        arith,
        pairs,
        any_alias-append local (merged_entries local merged),
        any_alias-merged_entries local merged pairs.1,
      )

  items-alias_free : (ns : Nodes) → any_alias (resolve_items ns) ≡ false
  items-alias_free nil = refl
  items-alias_free (cons n ns) = ground (arith, resolve-alias_free n, items-alias_free ns)

  pairs-alias_free :
      (ns : Nodes)
      → (any_alias (resolve_pairs ns).0 ≡ false) × (source_alias (resolve_pairs ns).1 ≡ false)
  pairs-alias_free nil = (refl, refl)
  pairs-alias_free (cons k nil) = (refl, refl)
  pairs-alias_free (cons k (cons v rest)) = elim (Bool-cases (tag_of k == merge_tag)) [
    | inl e ↦ rw e (
        ground (
          arith,
          pairs-alias_free rest,
          source_alias-append (sources_of (resolve v)) (resolve_pairs rest).1,
          source_alias-sources_of (resolve v) (resolve-alias_free v),
        ))
    | inr e ↦
        rw e (ground (arith, pairs-alias_free rest, resolve-alias_free k, resolve-alias_free v))
  ]

-- The tree that `resolve` gives holds no alias.
pub has_alias-resolve : (n : Node) → has_alias (resolve n) ≡ false
has_alias-resolve n = resolve-alias_free n

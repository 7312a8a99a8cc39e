-- ===== src/Config/Entries/Duplicates.antt =====
-- When `collectDuplicates` finds nothing.
use otelcol_config_lint.Base.{
  string_eq, All, Bool-cases, List, String, [], append-nil, arith, eq_iff, false, inl, inr, refl, ℕ,
  ◌+◌, ◌↔◌, ◌∷◌, ◌≡◌,
}
use otelcol_config_lint.Config.Entries.{
  collect_duplicates, duplicates_in, duplicates_items, index_path, join,
}
use otelcol_config_lint.Sets.{has, insert_one}
use otelcol_config_lint.Sets.Same.{IsDistinct}
use otelcol_config_lint.Sets.Laws.{has-insert_one}
use otelcol_config_lint.Yaml.{
  Node, Nodes, alias, alias_target, cons, mapping, nil, scalar, sequence, value_of,
}

-- The keys of a mapping's pairs, as they are written.
abbrev pub written_keys : Nodes → List String
written_keys nil = []
written_keys (cons k nil) = []
written_keys (cons k (cons v rest)) = value_of (alias_target k) ∷ written_keys rest

-- No mapping of the tree writes a key twice. The tree ends at its aliases.
unfoldable mutual
  pub HasUniqueKeys : Node → Type 0
  HasUniqueKeys (mapping _ ns) = IsDistinct (written_keys ns) × ValuesUnique ns
  HasUniqueKeys (sequence _ ns) = ItemsUnique ns
  HasUniqueKeys (scalar _) = Unit
  HasUniqueKeys (alias _ _) = Unit

  pub ValuesUnique : Nodes → Type 0
  ValuesUnique nil = Unit
  ValuesUnique (cons k nil) = Unit
  ValuesUnique (cons k (cons v rest)) = HasUniqueKeys v × ValuesUnique rest

  pub ItemsUnique : Nodes → Type 0
  ItemsUnique nil = Unit
  ItemsUnique (cons n ns) = HasUniqueKeys n × ItemsUnique ns

abbrev Unseen : List String → List String → Type 0
Unseen seen keys = All (λ (key : String). has seen key ≡ false) keys

Unseen-insert_one :
    (seen keys : List String) (key : String)
    → Unseen (insert_one seen key) keys ↔ (Unseen seen keys × (has keys key ≡ false))
Unseen-insert_one seen [] key = ((λ _. (tt, refl)), (λ _. tt))
Unseen-insert_one seen (x ∷ xs) key =
    let rest = Unseen-insert_one seen xs key in
    let here = has-insert_one seen key x in
    (
      (λ h. (
        (ground (arith, h.0, here), (rest.0 h.1).0),
        ground (arith, h.0, here, (rest.0 h.1).1, eq_iff x key, eq_iff key x),
      )),
      (λ h. (
        ground (arith, h.0.0, h.1, here, eq_iff x key, eq_iff key x),
        rest.1 (h.0.1, ground (arith, h.1)),
      )),
    )

Unseen-nil : (keys : List String) → Unseen [] keys
Unseen-nil [] = tt
Unseen-nil (x ∷ xs) = (refl, Unseen-nil xs)

mutual
  unfolding collect_duplicates HasUniqueKeys

  collect_nil : (n : Node) (path : String) → (collect_duplicates n path ≡ []) ↔ HasUniqueKeys n
  collect_nil (scalar a) path = ((λ _. tt), (λ _. refl))
  collect_nil (alias a n) path = ((λ _. tt), (λ _. refl))
  collect_nil (sequence a ns) path = items_nil ns 0 path
  collect_nil (mapping a ns) path =
      let inner = pairs_nil ns [] path in
      ((λ h. (inner.0 h).1), (λ u. inner.1 (Unseen-nil (written_keys ns), u)))

  items_nil :
      (ns : Nodes) (i : ℕ) (path : String) → (duplicates_items ns i path ≡ []) ↔ ItemsUnique ns
  items_nil nil i path = ((λ _. tt), (λ _. refl))
  items_nil (cons n ns) i path =
      let here = collect_nil n (index_path path i) in
      let rest = items_nil ns (i + 1) path in
      let both =
        append-nil (collect_duplicates n (index_path path i)) (duplicates_items ns (i + 1) path) in
      ((λ h. (here.0 (both.0 h).0, rest.0 (both.0 h).1)), (λ u. both.1 (here.1 u.0, rest.1 u.1)))

  pairs_nil :
      (ns : Nodes) (seen : List String) (path : String)
      → (duplicates_in ns seen path ≡ [])
        ↔ (Unseen seen (written_keys ns) × (IsDistinct (written_keys ns) × ValuesUnique ns))
  pairs_nil nil seen path = ((λ _. (tt, (tt, tt))), (λ _. refl))
  pairs_nil (cons k nil) seen path = ((λ _. (tt, (tt, tt))), (λ _. refl))
  pairs_nil (cons k (cons v rest)) seen path =
      let key = value_of (alias_target k) in
      let here = collect_nil v (join path key) in
      let behind = pairs_nil rest (insert_one seen key) path in
      let both =
        append-nil (collect_duplicates v (join path key))
          (duplicates_in rest (insert_one seen key) path) in
      let fresh = Unseen-insert_one seen (written_keys rest) key in
      elim (Bool-cases (has seen key)) [
        | inl e ↦ rw e ((λ h. absurd (cc (h))), (λ u. absurd (cc (u.0.0))))
        | inr e ↦ rw e (
          (λ h.
              let (unseen, (distinct, values)) = behind.0 (both.0 h).1 in
              let (before, once) = fresh.0 unseen in
              ((refl, before), ((once, distinct), (here.0 (both.0 h).0, values)))),
          (λ u.
              let ((_, before), ((once, distinct), (value, values))) = u in
              both.1 (here.1 value, behind.1 (fresh.1 (before, once), (distinct, values)))),
        )
      ]

-- `collectDuplicates` reports nothing exactly when no mapping of the document, read up to its
-- aliases, writes a key twice.
pub collect_duplicates-nil :
    (n : Node) (path : String) → (collect_duplicates n path ≡ []) ↔ HasUniqueKeys n
collect_duplicates-nil n path = collect_nil n path

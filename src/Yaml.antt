-- ===== src/Yaml.antt =====
-- The node trees of gopkg.in/yaml.v3, with the fields that the program reads. A node that an anchor
-- shares stands here once for each alias that reaches it; a tree holds no cyclic alias.

use otelcol_config_lint.Base.{Bool, List, String, [], false, true, ℕ, ◌∷◌}

pub record Attrs : Type 0 where
  pub tag : String
  pub value : String
  pub line : ℕ
  pub column : ℕ
  -- Style&TaggedStyle != 0 and Style&LiteralStyle != 0
  pub tagged : Bool
  pub literal : Bool

-- The children of a mapping alternate key and value.
mutual
  pub data Node : Type 0 where
    scalar : Attrs → Node
    mapping : Attrs → Nodes → Node
    sequence : Attrs → Nodes → Node
    alias : Attrs → Node → Node

  pub data Nodes : Type 0 where
    nil : Nodes
    cons : Node → Nodes → Nodes

abbrev pub attrs : Node → Attrs
attrs (scalar a) = a
attrs (mapping a _) = a
attrs (sequence a _) = a
attrs (alias a _) = a

abbrev pub tag_of : Node → String
tag_of n = (attrs n).tag

abbrev pub value_of : Node → String
value_of n = (attrs n).value

abbrev pub is_mapping : Node → Bool
is_mapping (mapping _ _) = true
is_mapping _ = false

abbrev pub is_sequence : Node → Bool
is_sequence (sequence _ _) = true
is_sequence _ = false

abbrev pub is_scalar : Node → Bool
is_scalar (scalar _) = true
is_scalar _ = false

abbrev pub to_list : Nodes → List Node
to_list nil = []
to_list (cons n ns) = n ∷ to_list ns

abbrev pub append : Nodes → Nodes → Nodes
append nil ms = ms
append (cons n ns) ms = cons n (append ns ms)

-- `n.Content`
abbrev pub content : Node → Nodes
content (scalar _) = nil
content (mapping _ ns) = ns
content (sequence _ ns) = ns
content (alias _ _) = nil

-- `aliasTarget`
unfoldable pub alias_target : Node → Node
alias_target (alias _ n) = alias_target n
alias_target (scalar a) = scalar a
alias_target (mapping a ns) = mapping a ns
alias_target (sequence a ns) = sequence a ns

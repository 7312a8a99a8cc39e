-- ===== src/Rule/MemoryLimiter.antt =====
-- pkg/rule/memorylimiter.go: the memory_limiter instances of a config and the limit each enforces.
pub mod Bounds
pub mod Config
pub mod Sizing
mod Examples
use Prim.Native.String.{◌++◌ as str_append}
use otelcol_config_lint.Base.{
  List, Option, String, if◌then◌else◌, nat_eq, none, not, some, string_eq, ℕ, ◌&&◌, ◌-◌, ◌/◌, ◌==◌,
  ◌^◌, ◌||◌,
}
use otelcol_config_lint.Base.Int.{div64, ltb_ℤ, mul64, pos, pos_part, ℤ, ◌*ℤ◌}
use otelcol_config_lint.Config.Entries.{Entry}
use otelcol_config_lint.Config.File.{Component, each}
use otelcol_config_lint.Config.Id.{ComponentId, Kind, id_text, section_key}
use otelcol_config_lint.Rule.Context.{Context, Environment}
use otelcol_config_lint.Rule.Docs.{memory_limiter_type}
use otelcol_config_lint.Rule.Node.{map_entries, node_or}
use otelcol_config_lint.Rule.Settings.{
  Setting, absent, context_read_int, positive, processors_of_type, read_duration, unknown,
}
use otelcol_config_lint.Rule.Settings.Library.{Scalars}
use otelcol_config_lint.Rule.Words.{quote}
use otelcol_config_lint.Schema.{Schema}
use otelcol_config_lint.Yaml.{Node, is_mapping}

abbrev pub whole_percent : ℕ
whole_percent = 100

abbrev pub spike_default_percent : String
spike_default_percent = "20"

-- `quantity.Mi`
abbrev pub mib : ℕ
mib = 2 ^ 20

pub record MemoryLimiter : Type 0 where
  pub id : ComponentId
  pub node : Node
  pub path : String
  pub check_interval : Setting
  pub limit_mib : Setting
  pub limit_percent : Setting
  pub spike_mib : Setting
  pub spike_percent : Setting

-- `Name`
abbrev pub limiter_name : MemoryLimiter → String
limiter_name m = str_append "processor " (quote (id_text m.id))

-- `At`
abbrev pub limiter_at : MemoryLimiter → Setting → Node
limiter_at m s = node_or s.node m.node

module _ (lib : Scalars) (sch : Option Schema) where
  -- one round of the loop over the entries: a key that is written again replaces the value
  pub read_entry : MemoryLimiter → Entry → MemoryLimiter
  read_entry m e =
      if e.key == "check_interval"
      then record m { check_interval = read_duration lib (some e.node) }
      else if e.key == "limit_mib"
      then record m { limit_mib = context_read_int lib sch e.node }
      else if e.key == "limit_percentage"
      then record m { limit_percent = context_read_int lib sch e.node }
      else if e.key == "spike_limit_mib"
      then record m { spike_mib = context_read_int lib sch e.node }
      else if e.key == "spike_limit_percentage"
      then record m { spike_percent = context_read_int lib sch e.node }
      else m

  abbrev pub unread : Component → MemoryLimiter
  unread c = record {
    id = c.id;
    node = c.key_node;
    path = str_append (section_key Kind.processor) (str_append "." (id_text c.id));
    check_interval = absent;
    limit_mib = absent;
    limit_percent = absent;
    spike_mib = absent;
    spike_percent = absent;
  }

  -- `readMemoryLimiter`
  unfoldable pub read_memory_limiter : Component → MemoryLimiter
  unfolding read_entry map_entries id_text
  read_memory_limiter c =
      let lim = unread c in
      if not (is_mapping c.value_node)
      then lim
      else each read_entry lim (map_entries c.value_node lim.path)

-- `Context.MemoryLimiters`
unfoldable pub memory_limiters : Scalars → Context → List MemoryLimiter
unfolding read_memory_limiter processors_of_type
memory_limiters lib ctx =
    processors_of_type ctx.file memory_limiter_type (read_memory_limiter lib ctx.schema)

abbrev pub max_int64 : ℕ
max_int64 = 2 ^ 63 - 1

abbrev pub limit_in_mib : ℤ → Option ℤ
limit_in_mib n = if ltb_ℤ (pos (max_int64 / mib)) n then none else some (mul64 n (pos mib))

-- Go's division by a positive number `p` of `max_int64`
abbrev pub share_of : ℤ → ℤ → Option ℤ
share_of memory p =
    if ltb_ℤ (pos (max_int64 / pos_part p)) memory
    then none
    else some (div64 (mul64 memory p) whole_percent)

-- `HardLimit`
unfoldable pub hard_limit : MemoryLimiter → Environment → Option ℤ
unfolding ◌*ℤ◌
hard_limit m env =
    if unknown m.limit_mib || unknown m.limit_percent
    then none
    else if positive m.limit_mib
    then limit_in_mib m.limit_mib.num
    else if positive m.limit_percent && ltb_ℤ (pos 0) env.memory_limit
    then share_of env.memory_limit m.limit_percent.num
    else none

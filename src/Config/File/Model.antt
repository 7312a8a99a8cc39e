-- ===== src/Config/File/Model.antt =====
-- pkg/config/parse.go: the types of the parsed config, and how it is asked.
use otelcol_config_lint.Base.{
  List, Option, String, [], if◌then◌else◌, nat_eq, none, some, string_eq, ◌==◌, ◌∷◌,
}
use otelcol_config_lint.Config.Entries.{Entry}
use otelcol_config_lint.Config.Id.{ComponentId, Kind, id_eq}
use otelcol_config_lint.Yaml.{Node, attrs}
use otelcol_config_lint.Diag.{Position}

pub record Component : Type 0 where
  pub id : ComponentId
  pub kind : Kind
  pub key_node : Node
  pub value_node : Node

pub record Section : Type 0 where
  pub kind : Kind
  pub key_node : Node
  pub node : Node
  pub components : List Component

pub record Ref : Type 0 where
  pub id : ComponentId
  pub node : Node
  pub path : String

pub record TelemetrySignal : Type 0 where
  pub key : String
  pub key_node : Node
  pub node : Node
  pub settings : List Entry

pub record Telemetry : Type 0 where
  pub key_node : Option Node
  pub node : Option Node
  pub logs : Option TelemetrySignal
  pub metrics : Option TelemetrySignal
  pub traces : Option TelemetrySignal
  pub other : List Entry

pub record Pipeline : Type 0 where
  pub key : String
  pub signal : String
  pub name : String
  pub key_node : Node
  pub node : Node
  pub receivers : List Ref
  pub processors : List Ref
  pub exporters : List Ref
  pub receivers_node : Option Node
  pub processors_node : Option Node
  pub exporters_node : Option Node
  pub unknown : List Entry

pub record Service : Type 0 where
  pub key_node : Option Node
  pub node : Option Node
  pub extensions : List Ref
  pub extensions_node : Option Node
  pub pipelines : List Pipeline
  pub pipelines_node : Option Node
  pub telemetry : Telemetry
  pub unknown : List Entry

-- `Sections` is a map from kinds: the function that looks a kind up in it.
pub record File : Type 0 where
  pub path : String
  pub root : Option Node
  pub sections : Kind → Option Section
  pub service : Service
  pub unknown : List Entry
  pub duplicate_keys : List Entry

-- `Pipeline.Refs`
unfoldable pub refs_of : Pipeline → Kind → List Ref
refs_of p Kind.receiver = p.receivers
refs_of p Kind.processor = p.processors
refs_of p Kind.exporter = p.exporters
refs_of p _ = []

-- `File.Pos`
unfoldable pub position : File → Option Node → Position
position f none = record { file = f.path; line = 0; column = 0 }
position f (some n) = record { file = f.path; line = (attrs n).line; column = (attrs n).column }

-- the loop of `TelemetrySignal.Setting` and, behind it, the method itself
setting_in : String → List Entry → Option Entry
setting_in key [] = none
setting_in key (e ∷ es) = if e.key == key then some e else setting_in key es

unfoldable pub setting : Option TelemetrySignal → String → Option Entry
unfolding setting_in
setting none key = none
setting (some t) key = setting_in key t.settings

-- the loop of `File.Component`
find_component : ComponentId → List Component → Option Component
find_component id [] = none
find_component id (c ∷ cs) = if c.id == id then some c else find_component id cs

unfoldable pub component : File → Kind → ComponentId → Option Component
unfolding find_component
component f k id = elim (f.sections k) [ none ↦ none | some s ↦ find_component id s.components ]

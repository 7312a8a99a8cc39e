-- ===== src/Rule/ConnectorWiring.antt =====
-- pkg/rule/connectorwiring: a connector is an exporter of one pipeline and a receiver of another.
pub mod Quiet
use Prim.Native.String.{◌++◌ as str_append}
use otelcol_config_lint.Base.{
  List, Option, String, [], append_if, for_each, if◌then◌else◌, is_nil, length, nat_eq, none, not,
  some, string_eq, ◌&&◌, ◌++◌, ◌==◌, ◌∷◌,
}
use otelcol_config_lint.Config.Id.{Kind, connector, exporter, id_eq, id_text, kind_eq, receiver}
use otelcol_config_lint.Config.File.{Component, File, Pipeline, Section, Service}
use otelcol_config_lint.Diag.{Severity, unset}
use otelcol_config_lint.Rule.Context.{Context, Finding, finding}
use otelcol_config_lint.Rule.Index.{Index, has_dynamic}
use otelcol_config_lint.Rule.Words.{quote}

connector_path : Component → String
unfolding id_text
connector_path c = str_append "connectors." (id_text c.id)

side_finding : Component → String → String → Finding
unfolding connector_path quote
side_finding c problem hint =
    record (finding (some c.key_node) (connector_path c)
      (str_append "connector " (str_append (quote (id_text c.id)) problem))) { hint = hint }

-- `checkSides`
unfoldable pub check_sides : Index → Component → List Pipeline → List Pipeline → List Finding
unfolding side_finding
check_sides idx c as_receiver as_exporter =
    if length as_exporter == 0 && not (has_dynamic idx Kind.exporter)
    then side_finding c " is used as a receiver but never as an exporter, so it gets no input"
        "list it under exporters in the pipeline that should feed it"
      ∷ []
    else if length as_receiver == 0 && not (has_dynamic idx Kind.receiver)
    then side_finding c " is used as an exporter but never as a receiver, so its output is dropped"
        "list it under receivers in the pipeline that should consume it"
      ∷ []
    else []

pub loop_finding : Component → Pipeline → Finding
unfolding connector_path quote
loop_finding c p = finding (some c.key_node) (connector_path c) (
    str_append "connector " (
      str_append (quote (id_text c.id)) (
        str_append " is both a receiver and an exporter of pipeline "
          (str_append (quote p.key) ", which forms a loop"))))

-- `checkLoop`
unfoldable pub check_loop : Component → List Pipeline → List Pipeline → List Finding
unfolding loop_finding
check_loop c as_receiver as_exporter = for_each as_exporter (λ (p : Pipeline).
    for_each as_receiver (λ (q : Pipeline). append_if (p.key == q.key) (loop_finding c p)))

-- the round for one connector
pub wiring_of : Index → Component → List Finding
unfolding check_sides check_loop
wiring_of idx c =
    let as_receiver = idx.as_receiver c.id in
    let as_exporter = idx.as_exporter c.id in
    if length as_receiver == 0 && length as_exporter == 0
    then []
    else check_sides idx c as_receiver as_exporter ++ check_loop c as_receiver as_exporter

pub wiring_in : Context → Option Section → List Finding
unfolding wiring_of
wiring_in ctx none = []
wiring_in ctx (some sec) =
    if is_nil ctx.file.service.node then [] else for_each sec.components (wiring_of ctx.index)

-- `Check` of connector-wiring
unfoldable pub connector_wiring : Context → List Finding
unfolding wiring_in
connector_wiring ctx = wiring_in ctx (ctx.file.sections Kind.connector)

-- ===== src/Rule/Docs.antt =====
-- pkg/rule/docs.go and component.go: the pages that findings cite, and the names that rules share.
use otelcol_config_lint.Base.{String}

abbrev pub memory_limiter_docs : String
memory_limiter_docs =
    "https://github.com/open-telemetry/opentelemetry-collector/blob/main/processor/memorylimiterprocessor/README.md"

abbrev pub batch_docs : String
batch_docs =
    "https://github.com/open-telemetry/opentelemetry-collector/blob/main/processor/batchprocessor/README.md"

abbrev pub tail_sampling_docs : String
tail_sampling_docs =
    "https://github.com/open-telemetry/opentelemetry-collector-contrib/blob/main/processor/tailsamplingprocessor/README.md"

abbrev pub probabilistic_sampler_docs : String
probabilistic_sampler_docs =
    "https://github.com/open-telemetry/opentelemetry-collector-contrib/blob/main/processor/probabilisticsamplerprocessor/README.md"

abbrev pub exporter_queue_docs : String
exporter_queue_docs =
    "https://github.com/open-telemetry/opentelemetry-collector/blob/main/exporter/exporterhelper/README.md"

abbrev pub auth_docs : String
auth_docs =
    "https://github.com/open-telemetry/opentelemetry-collector/blob/main/config/configauth/README.md"

abbrev pub kubernetes_resource_docs : String
kubernetes_resource_docs =
    "https://kubernetes.io/docs/concepts/configuration/manage-resources-containers/"

abbrev pub memory_limiter_type : String
memory_limiter_type = "memory_limiter"

abbrev pub batch_type : String
batch_type = "batch"

abbrev pub sending_queue_key : String
sending_queue_key = "sending_queue"

abbrev pub storage_key : String
storage_key = "storage"

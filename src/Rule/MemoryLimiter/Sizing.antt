-- ===== src/Rule/MemoryLimiter/Sizing.antt =====
-- pkg/rule/memorylimitersizing: a memory_limiter whose limits do not fit its container.
pub mod Fits
use Prim.Native.String.{◌++◌ as str_append}
use otelcol_config_lint.Base.{
  ◌+◌, List, String, [], for_each, if◌then◌else◌, none, not, some, ℕ, ◌*◌, ◌++◌, ◌||◌, ◌∷◌,
}
use otelcol_config_lint.Base.Int.{
  neg_part, add64, div64, leb_ℤ, ltb_ℤ, mul64, pos, pos_part, sub_ℕ, ℤ, ◌*ℤ◌, ◌+ℤ◌,
}
use otelcol_config_lint.Base.Text.{concat}
use otelcol_config_lint.Config.Entries.{join}
use otelcol_config_lint.Diag.{Severity, error, info, unset, warning}
use otelcol_config_lint.Quantity.{format}
use otelcol_config_lint.Rule.Context.{Context, Environment, Finding, Rule, environment_known}
use otelcol_config_lint.Rule.Docs.{memory_limiter_docs, kubernetes_resource_docs}
use otelcol_config_lint.Rule.MemoryLimiter.{
  MemoryLimiter, hard_limit, limiter_at, limiter_name, memory_limiters, mib, whole_percent,
}
use otelcol_config_lint.Rule.Settings.{positive, unknown}
use otelcol_config_lint.Rule.Settings.Library.{Scalars}
use otelcol_config_lint.Yaml.{Node}

abbrev pub process_overhead : ℕ
process_overhead = 50 * mib

abbrev pub ceiling_percent : ℕ
ceiling_percent = 80

abbrev sizing : Node → String → String → String → String → Severity → Finding
sizing node path message hint docs severity = record {
  node = some node;
  path = path;
  message = message;
  hint = hint;
  docs = docs;
  severity = severity;
}

abbrev limit_hint : String
limit_hint =
    "keep the hard limit near 80% of the container memory limit, and set GOMEMLIMIT to about 80% of the hard limit so the collector collects garbage before the limiter has to refuse data"

module _ (lib : Scalars) (lim : MemoryLimiter) (env : Environment) where
  abbrev shown : ℤ → String
  shown = format lib.tenths

  -- `checkPercentage`
  unfoldable pub check_percentage : List Finding
  unfolding join
  check_percentage =
      if ltb_ℤ (pos 0) env.memory_limit || positive lim.limit_mib || unknown lim.limit_mib
      then []
      else if not (positive lim.limit_percent) || ltb_ℤ (pos whole_percent) lim.limit_percent.num
      then []
      else sizing (limiter_at lim lim.limit_percent) (join lim.path "limit_percentage")
          (str_append (limiter_name lim)
            " limits memory by percentage, but the container has no memory limit")
          "the percentage resolves against the node's memory instead, so the limiter is effectively off; set a container memory limit, or use limit_mib"
          memory_limiter_docs Severity.unset
        ∷ []

  abbrev on_limit : String → Severity → List Finding
  on_limit message severity =
      sizing (limiter_at lim lim.limit_mib) lim.path (str_append (limiter_name lim) message)
        limit_hint memory_limiter_docs severity
      ∷ []

  -- `checkLimit`; sums and products of int64 values wrap round
  unfoldable pub check_limit : ℤ → List Finding
  unfolding ◌+ℤ◌ ◌*ℤ◌ format
  check_limit hard =
      let limit = env.memory_limit in
      if leb_ℤ limit (pos 0)
      then []
      else if leb_ℤ limit hard
      then on_limit
          (concat (
            " enforces "
            ∷ shown hard
            ∷ ", at or above the container memory limit of "
            ∷ shown limit
            ∷ "; the kernel kills the collector before the limiter engages"
            ∷ []))
          Severity.error
      else if ltb_ℤ limit (add64 hard (pos process_overhead))
      then on_limit
          (concat (
            " enforces "
            ∷ shown hard
            ∷ " of the container's "
            ∷ shown limit
            ∷ ", leaving "
            ∷ shown (sub_ℕ (pos_part limit + neg_part hard) (neg_part limit + pos_part hard))
            ∷ "; the process runs about "
            ∷ shown (pos process_overhead)
            ∷ " above what the limiter counts"
            ∷ []))
          Severity.unset
      else if ltb_ℤ (div64 (mul64 limit (pos ceiling_percent)) whole_percent) hard
      then on_limit
          (concat (
            " enforces "
            ∷ shown hard
            ∷ ", above 80% of the container memory limit of "
            ∷ shown limit
            ∷ []))
          Severity.unset
      else []

  -- `checkRequest`
  unfoldable pub check_request : ℤ → List Finding
  unfolding format
  check_request hard =
      let request = env.memory_request in
      if leb_ℤ request (pos 0) || leb_ℤ hard request
      then []
      else sizing (limiter_at lim lim.limit_mib) lim.path
          (str_append (limiter_name lim) (
            str_append " may use " (
              str_append (shown hard)
                (str_append ", above the container memory request of " (shown request)))))
          "the pod is Burstable and is evicted first under node pressure; collectors usually set the memory request equal to the limit"
          kubernetes_resource_docs Severity.info
        ∷ []

  -- one round of the loop of `Check`
  unfoldable pub sizing_findings : List Finding
  unfolding check_percentage check_limit check_request hard_limit
  sizing_findings = check_percentage ++ elim (hard_limit lim env) [
    | none ↦ []
    | some hard ↦ check_limit hard ++ check_request hard
  ]

-- `Check` of memory-limiter-sizing
unfoldable pub memory_limiter_sizing : Scalars → Context → List Finding
unfolding sizing_findings memory_limiters environment_known
memory_limiter_sizing lib ctx =
    if not (environment_known ctx.env)
    then []
    else for_each (memory_limiters lib ctx) (λ lim. sizing_findings lib lim ctx.env)

abbrev pub memory_limiter_sizing_rule : Scalars → Rule
memory_limiter_sizing_rule lib = record {
  name = "memory-limiter-sizing";
  description = "a memory_limiter whose limits do not fit the container it runs in";
  severity = Severity.warning;
  check = memory_limiter_sizing lib;
}

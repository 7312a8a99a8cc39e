-- ===== src/Rule/MemoryLimiter/Config.antt =====
-- pkg/rule/memorylimiterconfig: a memory_limiter that the collector refuses to start.
pub mod Startable
use Prim.Native.String.{◌++◌ as str_append}
use otelcol_config_lint.Base.{
  Bool, List, String, [], append_if, false, for_each, if◌then◌else◌, not, some, true, ℕ, ◌&&◌, ◌*◌,
  ◌++◌, ◌||◌, ◌∷◌,
}
use otelcol_config_lint.Base.Int.{itoa64, leb_ℤ, ltb_ℤ, pos, ℤ}
use otelcol_config_lint.Config.Entries.{join}
use otelcol_config_lint.Diag.{Severity, error, info, unset}
use otelcol_config_lint.Rule.Context.{Context, Finding, Rule}
use otelcol_config_lint.Rule.Docs.{memory_limiter_docs}
use otelcol_config_lint.Rule.MemoryLimiter.{
  MemoryLimiter, limiter_at, limiter_name, memory_limiters, spike_default_percent, whole_percent,
}
use otelcol_config_lint.Rule.Settings.{Setting, positive, unknown, invalid_uint32}
use otelcol_config_lint.Rule.Settings.Library.{Scalars}
use otelcol_config_lint.Yaml.{Node}

-- in nanoseconds
abbrev pub interval_floor : ℕ
interval_floor = 100 * 1000000

abbrev pub interval_ceiling : ℕ
interval_ceiling = 5 * 1000000000

abbrev pub about : MemoryLimiter → Node → String → String → String → Severity → Finding
about lim node key message hint severity = record {
  node = some node;
  path = join lim.path key;
  message = str_append (limiter_name lim) message;
  hint = hint;
  docs = memory_limiter_docs;
  severity = severity;
}

abbrev is_remarkable : ℤ → Bool
is_remarkable n = ltb_ℤ n (pos interval_floor) || ltb_ℤ (pos interval_ceiling) n

module _ (lib : Scalars) (lim : MemoryLimiter) where
  -- `checkInterval`
  unfoldable pub check_interval_of : List Finding
  unfolding join
  check_interval_of =
      let every = lim.check_interval in
      if not every.present
      then about lim lim.node "check_interval"
          " has no check_interval, and its default of 0s is rejected: 'check_interval' must be greater than zero"
          "set check_interval: 1s, the value upstream recommends" Severity.unset
        ∷ []
      else if every.known && leb_ℤ every.num (pos 0)
      then about lim (limiter_at lim every) "check_interval"
          (str_append " sets check_interval to " (
            str_append (lib.duration_text every.num)
              ": 'check_interval' must be greater than zero"))
          "set check_interval: 1s, the value upstream recommends" Severity.unset
        ∷ []
      else if every.known && is_remarkable every.num
      then about lim (limiter_at lim every) "check_interval"
          (str_append " checks memory every " (
            str_append (lib.duration_text every.num)
              (str_append "; upstream recommends " (lib.duration_text (pos 1000000000)))))
          "a long interval lets memory run away between checks, a very short one costs CPU"
          Severity.info
        ∷ []
      else []

  -- `checkLimits`
  unfoldable pub check_limits : List Finding
  check_limits =
      if positive lim.limit_mib || positive lim.limit_percent
      then []
      else if unknown lim.limit_mib || unknown lim.limit_percent
      then []
      else about lim lim.node "limit_mib"
          " sets neither limit_mib nor limit_percentage: 'limit_mib' or 'limit_percentage' must be greater than zero"
          (str_append
            "set limit_mib to the memory the collector may use; spike_limit_mib then defaults to "
            (str_append spike_default_percent "% of it"))
          Severity.unset
        ∷ []

  -- whether a spike limit that is known reaches a limit that is positive
  abbrev pub spike_reaches : Setting → Setting → Bool
  spike_reaches spike limit = spike.known && positive limit && leb_ℤ limit.num spike.num

  abbrev pub too_large_spike : Finding
  too_large_spike =
      about lim (limiter_at lim lim.spike_mib) "spike_limit_mib"
        (str_append " sets spike_limit_mib to " (
          str_append (itoa64 lim.spike_mib.num) (
            str_append " and limit_mib to " (
              str_append (itoa64 lim.limit_mib.num)
                ": 'spike_limit_mib' must be smaller than 'limit_mib'"))))
        (str_append "leave spike_limit_mib out to take the default of " (
          str_append spike_default_percent
            "% of limit_mib, which is where upstream suggests starting"))
        Severity.unset

  abbrev pub too_large_share : Finding
  too_large_share =
      about lim (limiter_at lim lim.spike_percent) "spike_limit_percentage"
        (str_append " sets spike_limit_percentage to " (
          str_append (itoa64 lim.spike_percent.num) (
            str_append " and limit_percentage to " (
              str_append (itoa64 lim.limit_percent.num)
                ": 'spike_limit_percentage' must be smaller than 'limit_percentage'"))))
        "" Severity.unset

  abbrev pub exceeds_whole : Setting → Bool
  exceeds_whole s = s.known && ltb_ℤ (pos whole_percent) s.num

  abbrev pub share_finding : String × Setting → Finding
  share_finding pct =
      about lim (limiter_at lim pct.1) pct.0
        (str_append " sets " (
          str_append pct.0 (
            str_append " to " (
              str_append (itoa64 pct.1.num)
                ": 'limit_percentage' and 'spike_limit_percentage' must be greater than zero and less than or equal to hundred"))))
        "" Severity.unset

  -- one round of the loop of `checkPercentages`
  abbrev pub above_whole : String × Setting → List Finding
  above_whole pct = append_if (exceeds_whole pct.1) (share_finding pct)

  unfoldable pub check_percentages : List Finding
  unfolding itoa64 join
  check_percentages =
      for_each
        (("limit_percentage", lim.limit_percent)
          ∷ ("spike_limit_percentage", lim.spike_percent)
          ∷ [])
        above_whole

  -- `checkSpikes`
  unfoldable pub check_spikes : List Finding
  unfolding check_percentages itoa64 join
  check_spikes =
      append_if (spike_reaches lim.spike_mib lim.limit_mib) too_large_spike
      ++ (append_if (spike_reaches lim.spike_percent lim.limit_percent) too_large_share
          ++ check_percentages)

  -- one round of the loop of `checkRange`
  abbrev pub out_of_range : String × Setting → List Finding
  out_of_range size = append_if (invalid_uint32 lib size.1) (
      about lim (limiter_at lim size.1) size.0
        (str_append " sets " (str_append size.0 " to a value the uint32 field cannot decode"))
        "use an unsigned integer between 0 and 4294967295" Severity.unset)

  -- `checkRange`, which also says whether it found one
  unfoldable pub check_range : List Finding
  unfolding invalid_uint32 join
  check_range =
      for_each
        (("limit_mib", lim.limit_mib)
          ∷ ("spike_limit_mib", lim.spike_mib)
          ∷ ("limit_percentage", lim.limit_percent)
          ∷ ("spike_limit_percentage", lim.spike_percent)
          ∷ [])
        out_of_range

  abbrev pub none_found : List Finding → Bool
  none_found [] = true
  none_found (_ ∷ _) = false

  -- one round of the loop of `Check`
  unfoldable pub limiter_findings : List Finding
  unfolding check_interval_of check_range check_limits check_spikes
  limiter_findings =
      check_interval_of
      ++ (if none_found check_range then check_limits ++ check_spikes else check_range)

-- `Check` of memory-limiter-config
unfoldable pub memory_limiter_config : Scalars → Context → List Finding
unfolding limiter_findings memory_limiters
memory_limiter_config lib ctx = for_each (memory_limiters lib ctx) (limiter_findings lib)

abbrev pub memory_limiter_config_rule : Scalars → Rule
memory_limiter_config_rule lib = record {
  name = "memory-limiter-config";
  description = "a memory_limiter the collector will refuse to start";
  severity = Severity.error;
  check = memory_limiter_config lib;
}

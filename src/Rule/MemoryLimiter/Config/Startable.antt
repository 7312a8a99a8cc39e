-- ===== src/Rule/MemoryLimiter/Config/Startable.antt =====
-- memory-limiter-config reports an error exactly for the settings that, as read, rule out a start.
use mathlib.Core.Path.{ap₂}
use otelcol_config_lint.Base.{
  if◌then◌else◌, ap, for_each, append_if, String, false, inr, inl, Bool-cases, ◌∙◌, Bool, List, [],
  arith, nat_eq, not, refl, string_eq, true, ◌&&◌, ◌++◌, ◌==◌, ◌||◌, ◌∷◌, ◌≡◌,
}
use otelcol_config_lint.Base.Int.{leb_ℤ, ltb_ℤ, pos}
use otelcol_config_lint.Diag.{Severity, severity_eq}
use otelcol_config_lint.Rule.Context.{Finding}
use otelcol_config_lint.Rule.MemoryLimiter.{MemoryLimiter}
use otelcol_config_lint.Rule.MemoryLimiter.Config.{
  too_large_share, share_finding, too_large_spike, above_whole, exceeds_whole, out_of_range,
  spike_reaches, check_percentages, none_found, limiter_findings, check_spikes, check_range,
  check_interval_of, check_limits,
}
use otelcol_config_lint.Rule.Settings.{Setting, positive, unknown, invalid_uint32}
use otelcol_config_lint.Rule.Settings.Library.{Scalars}

-- Only remarks, which have a level of their own.
abbrev pub only_remarks : List Finding → Bool
only_remarks [] = true
only_remarks (φ ∷ φs) = φ.severity == Severity.info && only_remarks φs

-- A value that is known has the property.
abbrev pub if_known : Setting → Bool → Bool
if_known s b = not s.known || b

and_assoc : (a b c : Bool) → (a && (b && c)) ≡ ((a && b) && c)
and_assoc true b c = refl
and_assoc false b c = refl

and_true : (b : Bool) → (b && true) ≡ b
and_true true = refl
and_true false = refl

abbrev fit : Scalars → MemoryLimiter → Bool
fit lib m =
    not (invalid_uint32 lib m.limit_mib)
    && (not (invalid_uint32 lib m.spike_mib)
        && (not (invalid_uint32 lib m.limit_percent)
            && (not (invalid_uint32 lib m.spike_percent) && true)))

abbrev limit_stated : MemoryLimiter → Bool
limit_stated m =
    positive m.limit_mib
    || positive m.limit_percent
    || unknown m.limit_mib
    || unknown m.limit_percent

abbrev spike_below : Setting → Setting → Bool
spike_below spike limit = not (positive limit) || if_known spike (ltb_ℤ spike.num limit.num)

abbrev spikes_below : MemoryLimiter → Bool
spikes_below m = spike_below m.spike_mib m.limit_mib && spike_below m.spike_percent m.limit_percent

abbrev shares_below : MemoryLimiter → Bool
shares_below m =
    if_known m.limit_percent (leb_ℤ m.limit_percent.num (pos 100))
    && if_known m.spike_percent (leb_ℤ m.spike_percent.num (pos 100))

-- What the collector asks of the settings that the linter can read: an interval above zero, numbers that
-- the fields hold, a limit of one kind above zero, spike limits below the limits, and no share above
-- the whole. A value that the linter cannot read, for whatever reason, is taken to be right.
abbrev pub is_startable : Scalars → MemoryLimiter → Bool
is_startable lib m =
    m.check_interval.present
    && if_known m.check_interval (ltb_ℤ (pos 0) m.check_interval.num)
    && (fit lib m && (limit_stated m && (spikes_below m && shares_below m)))

only_remarks-append :
    (xs ys : List Finding) → only_remarks (xs ++ ys) ≡ (only_remarks xs && only_remarks ys)
only_remarks-append [] ys = refl
only_remarks-append (x ∷ xs) ys = ground (arith, only_remarks-append xs ys)

module _ (lib : Scalars) (m : MemoryLimiter) where
  interval_remarks :
      only_remarks (check_interval_of lib m)
      ≡ (m.check_interval.present && if_known m.check_interval (ltb_ℤ (pos 0) m.check_interval.num))
  unfolding check_interval_of
  interval_remarks = ground arith

  limits_remarks : only_remarks (check_limits lib m) ≡ (
      positive m.limit_mib
      || positive m.limit_percent
      || unknown m.limit_mib
      || unknown m.limit_percent)
  unfolding check_limits
  limits_remarks = ground arith

  -- The findings of a loop with one guarded report each, none of them a remark.
  only_remarks-append_if :
      (b : Bool) (φ : Finding)
      → (φ.severity == Severity.info) ≡ false
      → only_remarks (append_if b φ) ≡ not b
  only_remarks-append_if true φ h = ap (λ t. t && true) h
  only_remarks-append_if false φ h = refl

  not_reaches :
      (spike limit : Setting)
      → not (spike_reaches lib m spike limit)
        ≡ (not (positive limit) || if_known spike (ltb_ℤ spike.num limit.num))
  not_reaches spike limit = ground arith

  not_above : (s : Setting) → not (exceeds_whole lib m s) ≡ if_known s (leb_ℤ s.num (pos 100))
  not_above s = ground arith

  percentages_remarks : only_remarks (check_percentages lib m) ≡ (
      if_known m.limit_percent (leb_ℤ m.limit_percent.num (pos 100))
      && if_known m.spike_percent (leb_ℤ m.spike_percent.num (pos 100)))
  unfolding check_percentages
  percentages_remarks =
      let limit : String × Setting = ("limit_percentage", m.limit_percent) in
      let spike : String × Setting = ("spike_limit_percentage", m.spike_percent) in
      only_remarks-append (above_whole lib m limit) (above_whole lib m spike ++ [])
      ∙ ap₂ ◌&&◌
          (only_remarks-append_if (exceeds_whole lib m limit.1) (share_finding lib m limit) refl
            ∙ not_above limit.1)
          (only_remarks-append (above_whole lib m spike) []
            ∙ and_true (only_remarks (above_whole lib m spike))
            ∙ only_remarks-append_if (exceeds_whole lib m spike.1) (share_finding lib m spike) refl
            ∙ not_above spike.1)

  spikes_remarks : only_remarks (check_spikes lib m) ≡ (spikes_below m && shares_below m)
  unfolding check_spikes
  spikes_remarks =
      let first = spike_reaches lib m m.spike_mib m.limit_mib in
      let second = spike_reaches lib m m.spike_percent m.limit_percent in
      let shares = check_percentages lib m in
      only_remarks-append (append_if first (too_large_spike lib m))
        (append_if second (too_large_share lib m) ++ shares)
      ∙ ap₂ ◌&&◌
          (only_remarks-append_if first (too_large_spike lib m) refl
            ∙ not_reaches m.spike_mib m.limit_mib)
          (only_remarks-append (append_if second (too_large_share lib m)) shares
            ∙ ap₂ ◌&&◌
                (only_remarks-append_if second (too_large_share lib m) refl
                  ∙ not_reaches m.spike_percent m.limit_percent)
                percentages_remarks)
      ∙ and_assoc (spike_below m.spike_mib m.limit_mib)
          (spike_below m.spike_percent m.limit_percent) (shares_below m)

  all_fit : List (String × Setting) → Bool
  all_fit [] = true
  all_fit (size ∷ sizes) = not (invalid_uint32 lib size.1) && all_fit sizes

  range_found :
      (sizes : List (String × Setting))
      → none_found lib m (for_each sizes (out_of_range lib m)) ≡ all_fit sizes
  unfolding all_fit
  range_found [] = refl
  range_found (size ∷ sizes) = elim (Bool-cases (invalid_uint32 lib size.1)) [
    | inl e ↦ rw e refl
    | inr e ↦ rw e (range_found sizes)
  ]

  range_remarks :
      (sizes : List (String × Setting))
      → only_remarks (for_each sizes (out_of_range lib m)) ≡ all_fit sizes
  unfolding all_fit
  range_remarks [] = refl
  range_remarks (size ∷ sizes) = elim (Bool-cases (invalid_uint32 lib size.1)) [
    | inl e ↦ rw e refl
    | inr e ↦ rw e (range_remarks sizes)
  ]

  abbrev sizes : List (String × Setting)
  sizes =
      ("limit_mib", m.limit_mib)
      ∷ ("spike_limit_mib", m.spike_mib)
      ∷ ("limit_percentage", m.limit_percent)
      ∷ ("spike_limit_percentage", m.spike_percent)
      ∷ []

  range_decides :
      only_remarks (
        if none_found lib m (check_range lib m)
        then check_limits lib m ++ check_spikes lib m
        else check_range lib m)
      ≡ (all_fit sizes && (limit_stated m && (spikes_below m && shares_below m)))
  unfolding check_range
  range_decides = elim (Bool-cases (all_fit sizes)) [
    | inl e ↦
        rw (range_found sizes ∙ e, e)
          (only_remarks-append (check_limits lib m) (check_spikes lib m)
            ∙ ap₂ ◌&&◌ limits_remarks spikes_remarks)
    | inr e ↦ rw (range_found sizes ∙ e, e) (range_remarks sizes ∙ e)
  ]

  -- For one instance, memory-limiter-config reports something above a remark exactly if its settings, as
  -- far as the linter reads them, rule out a start of the collector: the interval is missing or read as
  -- not above zero, a number is read that does not fit its field, no limit is above zero or left
  -- unread, a spike limit is read that reaches its limit, or a share is read above the whole. A value
  -- that the linter cannot read, an expansion or a malformed text, is not held against the instance
  -- by the comparisons.
  pub limiter_findings-is_startable : only_remarks (limiter_findings lib m) ≡ is_startable lib m
  unfolding limiter_findings all_fit
  limiter_findings-is_startable =
      only_remarks-append (check_interval_of lib m) (
        if none_found lib m (check_range lib m)
        then check_limits lib m ++ check_spikes lib m
        else check_range lib m)
      ∙ ap₂ ◌&&◌ interval_remarks range_decides

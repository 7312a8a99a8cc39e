-- ===== src/Rule/MemoryLimiter/Examples.antt =====
-- A memory_limiter in a container of one gibibyte, and witnesses.
use otelcol_config_lint.Base.{
  none, some, true, false, ℕ, refl, ◌≡◌, string_eq, nat_eq, arith, if◌then◌else◌, ◌&&◌, leb, ◌*◌,
  ◌^◌,
}
use otelcol_config_lint.Base.Int.{pos}
use otelcol_config_lint.Rule.Context.{Environment}
use otelcol_config_lint.Rule.MemoryLimiter.{MemoryLimiter, hard_limit, max_int64}
use otelcol_config_lint.Rule.MemoryLimiter.Bounds.{bytes, hard_limit_exact, product, states_limit}
use otelcol_config_lint.Rule.MemoryLimiter.Config.{limiter_findings}
use otelcol_config_lint.Rule.MemoryLimiter.Config.Startable.{
  is_startable, limiter_findings-is_startable, only_remarks,
}
use otelcol_config_lint.Rule.MemoryLimiter.Sizing.{check_limit}
use otelcol_config_lint.Rule.MemoryLimiter.Sizing.Fits.{
  check_limit-leaves_room, check_limit_wraps, leaves_room, nothing_found,
}
use otelcol_config_lint.Rule.Sample.{id_of, null, strict_scalars, text}
use otelcol_config_lint.Rule.Settings.{absent, written}
use otelcol_config_lint.Rule.Settings.Library.{Scalars}

-- a library that reads each duration as a second
abbrev seconds : Scalars
seconds = record strict_scalars { parse_duration = λ _. some (pos 1000000000) }

abbrev limiter : MemoryLimiter
limiter = record {
  id = id_of "memory_limiter";
  node = null 2;
  path = "processors.memory_limiter";
  check_interval = written (text 3 "1s") (some (pos 1000000000));
  limit_mib = absent;
  limit_percent = written (text 4 "75") (some (pos 75));
  spike_mib = absent;
  spike_percent = written (text 5 "15") (some (pos 15));
}

abbrev container : ℕ → Environment
container limit = record {
  kubernetes = true;
  host_network = none;
  memory_request = pos 0;
  memory_limit = pos limit;
}

three_quarters : hard_limit limiter (container (2 ^ 30)) ≡ some (pos (3 * 2 ^ 28))
unfolding hard_limit
three_quarters = refl

hard_limit_exact_example : hard_limit limiter (container (2 ^ 30)) ≡ (
    if states_limit limiter (container (2 ^ 30))
      && leb (product limiter (container (2 ^ 30))) max_int64
    then some (pos (bytes limiter (container (2 ^ 30))))
    else none)
hard_limit_exact_example = hard_limit_exact limiter (container (2 ^ 30))

limiter_findings-is_startable_example :
    only_remarks (limiter_findings seconds limiter) ≡ is_startable seconds limiter
limiter_findings-is_startable_example = limiter_findings-is_startable seconds limiter

check_limit-leaves_room_example :
    nothing_found (check_limit seconds limiter (container (2 ^ 30)) (pos (3 * 2 ^ 28)))
    ≡ leaves_room (3 * 2 ^ 28) (2 ^ 30)
check_limit-leaves_room_example =
    check_limit-leaves_room seconds limiter (container (2 ^ 30)) (3 * 2 ^ 28) (2 ^ 30) refl
      (omega arith) (omega arith)

check_limit_wraps_example :
    nothing_found (check_limit seconds limiter (container (2 ^ 59)) (pos (2 ^ 40))) ≡ false
check_limit_wraps_example = check_limit_wraps seconds limiter (container (2 ^ 59)) (2 ^ 40) 0 refl

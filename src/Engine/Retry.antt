-- ===== src/Engine/Retry.antt =====
-- nexus/core/workflow_engine/completion_service.py: the backoff of a retry and the transition of a
-- step that failed. Delays are in milliseconds, so `max_seconds` of 60 is 60000.
use nexus_arc.Base.{
  ℕ, ◌+◌, ◌*◌, ◌/◌, ◌^◌, min, String, Option, none, some, ltb, leb, str_eq, truthy, if◌then◌else◌,
}
use nexus_arc.Engine.Model.{Step, StepStatus}

abbrev pub max_delay : ℕ
max_delay = 60000

-- `strategy or "exponential"`
unfoldable pub effective_strategy : Option String → String
effective_strategy none = "exponential"
effective_strategy (some s) = if truthy (some s) then s else "exponential"

-- From this retry on `2 ** (retry_count - 1)` is no float any more.
abbrev pub overflow_count : ℕ
overflow_count = 1025

-- The delay; none if it raises OverflowError. At 0 it is half the base, here rounded down.
unfoldable pub compute_retry_backoff : ℕ → Option String → ℕ → ℕ → Option ℕ
unfolding effective_strategy
compute_retry_backoff retry_count strategy initial_delay default_base =
    let base = if ltb 0 initial_delay then initial_delay else default_base in
    let doubled : Option ℕ =
      if leb overflow_count retry_count
      then none
      else some (min (base * 2 ^ retry_count / 2) max_delay) in
    let other : Option ℕ =
      if str_eq (effective_strategy strategy) "constant" then some base else doubled in
    if str_eq (effective_strategy strategy) "linear"
    then some (min (base * retry_count) max_delay)
    else other

unfoldable pub max_retries : Step → ℕ
max_retries s = elim s.retry [ none ↦ s.agent.max_retries | some n ↦ n ]

-- The step after the transition, and the backoff, or its exception, if it will be tried again.
unfoldable pub apply_retry_transition : ℕ → Step → Step × Option (Option ℕ)
unfolding max_retries compute_retry_backoff
apply_retry_transition default_base s =
    if leb (max_retries s) s.retry_count then (record s { status = StepStatus.failed }, none) else (
      record s {
        retry_count = s.retry_count + 1;
        status = StepStatus.pending;
        completed_at = none;
        error = none;
      },
      some (
          compute_retry_backoff (s.retry_count + 1) s.backoff_strategy s.initial_delay
            default_base),
    )

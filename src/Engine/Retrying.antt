-- ===== src/Engine/Retrying.antt =====
-- The retries of a step: how long it waits, and how often a stored step is tried again.
use nexus_arc.Base.{
  false, str_eq→eq, str_eq, if◌then◌else◌, ℕ, suc, ◌*◌, ◌^◌, ◌≤◌, ◌≡◌, Option, some, arith, true,
  String, ltb, All,
}
use native.Mathlib.Nat.{pow-suc}
use nexus_arc.Engine.Model.{Workflow}
use nexus_arc.Engine.Retry.{max_delay, effective_strategy, compute_retry_backoff}
use nexus_arc.Engine.World.{Engine, World, Store, load}
use nexus_arc.Engine.Reach.{Reach}

pow-le : (b n : ℕ) → b * 2 ^ n ≤ b * 2 ^ suc n
pow-le b n = rw pow-suc (omega arith)

linear_not_constant : (s : String) → str_eq s "linear" ≡ true → str_eq s "constant" ≡ false
linear_not_constant s h = rw (str_eq→eq s "linear" h)

-- Where the delays of a retry and of the next one do not overflow, the delay does not fall, and is at
-- most the maximal delay, except that with the strategy "constant" it is at most the base delay.
pub backoff_bounds :
    (retry_count : ℕ) (strategy : Option String) (initial_delay default_base a b : ℕ)
    → compute_retry_backoff retry_count strategy initial_delay default_base ≡ some a
    → compute_retry_backoff (suc retry_count) strategy initial_delay default_base ≡ some b
    → let base = if ltb 0 initial_delay then initial_delay else default_base in
      (a ≤ b) × (a ≤ (if str_eq (effective_strategy strategy) "constant" then base else max_delay))
unfolding compute_retry_backoff
backoff_bounds retry_count strategy initial_delay default_base a b is_a is_b = ground (
  arith,
  is_a,
  is_b,
  pow-le initial_delay retry_count,
  pow-le default_base retry_count,
  linear_not_constant (effective_strategy strategy),
)

-- No stored step has a retry counted.
abbrev pub IsUncounted : Store → Type 0
IsUncounted store =
    (k : String) (w : Workflow) → load k store ≡ some w → All (λ s. s.retry_count ≡ 0) w.steps

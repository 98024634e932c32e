-- ===== src/EventBus/Tests.antt =====
-- A run of the bus, and the theorem at it.
use nexus_arc.Base.{
  ◌≡◌, refl, String, Bool, false, none, some, List, [], ◌∷◌, ◌||◌, str_eq, is_some, ◌==◌,
}
use nexus_arc.EventBus.{
  put_subscription, subscribe, subscribe_pattern, remove, has_id, unsubscribe, clear, hears,
  matching, emit, subscriber_count,
}
use nexus_arc.EventBus.Delivery.{
  Operation, subscribed, subscribed_pattern, unsubscribed, apply, run, active, has_id-run,
}

-- A match of the patterns "*" and equal texts.
abbrev star : String → String → Bool
star event pattern = str_eq pattern "*" || str_eq event pattern

operations : List Operation
operations =
    subscribed "a" "step.started" 1
    ∷ subscribed_pattern "b" "*" 2
    ∷ subscribed "c" "step.started" 3
    ∷ unsubscribed "a"
    ∷ []

program : Unit {0}
unfolding put_subscription subscribe subscribe_pattern remove unsubscribe clear hears matching emit
    subscriber_count apply run active operations
program = tt

-- The handler that raises is called like the other one.
emit-operations : emit star (λ h. h == 2) "step.started" (run operations []) ≡ (2 ∷ 3 ∷ [], 2 ∷ [])
unfolding program
emit-operations = refl

subscriber_count-operations : subscriber_count (some "step.started") (run operations []) ≡ 1
unfolding program
subscriber_count-operations = refl

has_id-run_example :
    (has_id "b" (matching star "step.started" (run operations []))
      ≡ elim (active "b" operations none) [ none ↦ false | some s ↦ hears star "step.started" s ])
    × ((unsubscribe "b" (run operations [])).1 ≡ is_some (active "b" operations none))
has_id-run_example = has_id-run star "step.started" "b" operations

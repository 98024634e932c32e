-- ===== src/Engine/PartTests.antt =====
-- Gates, retries, routes and runnable steps of the sample, and the theorems at it.
use nexus_arc.Base.{
  not, ◌||◌, str_eq, ◌≤◌, not, ◌||◌, str_eq, mem_text, ◌≡◌, refl, ◌≤◌, if◌then◌else◌, map, All,
  true, none, some, [], ◌∷◌,
}
use nexus_arc.Engine.Values.{empty, get, put, update, setdefault}
use nexus_arc.Engine.Model.{WorkflowState, StepStatus, Workflow, get_step, custom}
use nexus_arc.Engine.Gates.{
  has_approval_gate, needs_approval, apply_approval_gates, check_pr_merge_allowed,
}
use nexus_arc.Engine.Retry.{max_delay, effective_strategy, compute_retry_backoff}
use nexus_arc.Engine.Routing.{
  eval_locals, evaluate_condition, dash_runs, slugify, names_step, find_step_by_name, target_name,
  is_default, default_name, route_taken, route_name, resolve_route_target,
}
use nexus_arc.Engine.World.{load, World}
use nexus_arc.Engine.RouteChoice.{chosen_name, resolve_route_target_lem}
use nexus_arc.Engine.Gating.{apply_approval_gates_idem, apply_approval_gates_guards}
use nexus_arc.Engine.Retrying.{backoff_bounds}
use nexus_arc.Engine.Runnable.{
  parallel_steps, runnable_steps, get_runnable_steps, has_index, is_runnable,
  has_index-get_runnable_steps,
}
use nexus_arc.Engine.Samples.{engine, policy, plan, review, ship, sample}

program : Unit {0}
unfolding get put update setdefault get_step is_default default_name target_name route_taken
    route_name names_step slugify dash_runs find_step_by_name resolve_route_target
    evaluate_condition eval_locals load get_runnable_steps runnable_steps parallel_steps mem_text
program = tt

resolve_route_target-review : resolve_route_target engine.eval sample review empty ≡ some 2
unfolding program
resolve_route_target-review = refl

resolve_route_target_lem_example :
    resolve_route_target engine.eval sample review empty
    ≡ elim (chosen_name engine.eval empty none review.routes) [
      | none ↦ none
      | some name ↦ find_step_by_name sample name
    ]
resolve_route_target_lem_example = resolve_route_target_lem engine.eval sample review empty

apply_approval_gates_guards_example :
    All
      (λ s.
        ((not true || not (check_pr_merge_allowed s)) ≡ true)
        × ((not (needs_approval policy ("step_1" ∷ []) s) || has_approval_gate s custom) ≡ true))
      (apply_approval_gates policy sample).steps
apply_approval_gates_guards_example = apply_approval_gates_guards policy sample

apply_approval_gates_idem_example :
    apply_approval_gates policy (apply_approval_gates policy sample)
    ≡ apply_approval_gates policy sample
apply_approval_gates_idem_example = apply_approval_gates_idem policy sample

backoff_bounds_example :
    (3000 ≤ 4000)
    × (3000 ≤ (if str_eq (effective_strategy (some "linear")) "constant" then 1000 else max_delay))
unfolding compute_retry_backoff effective_strategy
backoff_bounds_example = backoff_bounds 3 (some "linear") 0 1000 3000 4000 refl refl

-- At the number 1025 the doubled delay is no float any more.
backoff_overflows :
    map (λ n. compute_retry_backoff n none 0 1000) (0 ∷ 1 ∷ 4 ∷ 1025 ∷ [])
    ≡ some 500 ∷ some 1000 ∷ some 8000 ∷ none ∷ []
unfolding compute_retry_backoff effective_strategy
backoff_overflows = refl

-- Two steps that may run beside the pending first one, of which one is done.
beside : Workflow
beside = record sample {
  state = WorkflowState.running;
  current_step = 1;
  steps =
      plan
      ∷ record review { parallel_with = "plan" ∷ [] }
      ∷ record ship { parallel_with = "plan" ∷ []; status = StepStatus.completed }
      ∷ [];
}

beside_world : World
beside_world = record { store = ("wf", beside) ∷ []; trace = [] }

get_runnable_steps-beside : get_runnable_steps "wf" beside_world ≡ 0 ∷ 1 ∷ []
unfolding program beside beside_world get_runnable_steps runnable_steps parallel_steps
get_runnable_steps-beside = refl

has_index-get_runnable_steps_example :
    has_index 1 (get_runnable_steps "wf" beside_world) ≡ is_runnable beside 0 "plan" 1
unfolding program beside beside_world
has_index-get_runnable_steps_example =
    has_index-get_runnable_steps "wf" beside_world beside 0 1 plan refl refl refl refl

-- ===== src/Engine/Advance.antt =====
-- nexus/core/workflow_engine/transition_service.py: the reset of a step for a goto, and the loop
-- that looks for the step to run after a successful completion.
use nexus_arc.Base.{
  ℕ, zero, suc, ◌+◌, ◌-◌, ◌*◌, max, Bool, true, Option, none, some, List, [], ◌∷◌, leb,
  if◌then◌else◌, modify_at, truthy,
}
use nexus_arc.Engine.Values.{Dict, empty}
use nexus_arc.Engine.Model.{
  Step, StepStatus, Workflow, WorkflowState, step_at, is_pending, get_next_step,
}
use nexus_arc.Engine.Routing.{
  evaluate_condition, build_step_context, find_step_by_name, resolve_route_target,
}
use nexus_arc.Engine.World.{Engine, Effect, AuditEvent, NexusEvent, emit, audit}

-- The assignments of `reset_step_for_goto`, after its guard.
unfoldable pub reset_step : Step → Step
reset_step s = record s {
  iteration = s.iteration + 1;
  status = StepStatus.pending;
  started_at = none;
  completed_at = none;
  error = none;
  outputs = empty;
  retry_count = 0;
}

-- The guard: the RuntimeError of a step that was re-activated too often.
unfoldable pub at_limit : ℕ → Step → Bool
at_limit limit s = leb limit s.iteration

unfoldable pub change_step : ℕ → (Step → Step) → Workflow → Workflow
change_step i f w = record w { steps = modify_at w.steps i f }

-- `none` for the RuntimeError.
unfoldable pub reset_step_for_goto : ℕ → ℕ → Workflow → Option Workflow
unfolding reset_step at_limit change_step
reset_step_for_goto limit i w = elim (step_at w i) [
  | none ↦ none
  | some s ↦ if at_limit limit s then none else some (change_step i reset_step w)
]

-- The workflow as it is being changed, with the trace of the effects so far.
pub record Flow : Type 0 where
  pub workflow : Workflow
  pub trace : List Effect

-- How the search for the next step ends. `activated` has the index of the step, `reset_error` the
-- index of the step that was at its limit. `out_of_fuel` is the model's own.
pub data Outcome : Type 0 where
  activated : ℕ → Outcome
  finished : Outcome
  reset_error : ℕ → Outcome
  out_of_fuel : Outcome

-- How a round of the `while` loop ends: with the new value of `next_step`, or by a return.
pub data Turn : Type 0 where
  continue : Option ℕ → Turn
  stop : Outcome → Turn

unfoldable pub mark_skipped : ℕ → Step → Step
mark_skipped now s = record s { status = StepStatus.skipped; completed_at = some now }

unfoldable pub mark_running : ℕ → Step → Step
mark_running now s = record s { status = StepStatus.running; started_at = some now }

unfoldable pub finish : ℕ → Workflow → Workflow
finish now w = record w { state = WorkflowState.completed; completed_at = some now }

module _ (engine : Engine) (now : ℕ) (context : Dict) where
  -- A round at a router step.
  unfoldable pub router_turn : ℕ → Step → Flow → Flow × Turn
  unfolding mark_skipped change_step finish emit audit resolve_route_target reset_step_for_goto
  router_turn i s flow =
      let w = record (change_step i (mark_skipped now) flow.workflow) {
        current_step = s.step_num;
      } in
      let trace =
        emit engine w.id (NexusEvent.step_skipped_router s.step_num s.name s.agent.name)
          (audit w.id (AuditEvent.step_skipped_router s.step_num s.name) flow.trace) in
      elim (resolve_route_target engine.eval w s context) [
        | none ↦ (record { workflow = finish now w; trace = trace }, stop finished)
        | some j ↦ elim (reset_step_for_goto engine.max_loop_iterations j w) [
          | none ↦ (record { workflow = w; trace = trace }, stop (reset_error j))
          | some w' ↦ (record { workflow = w'; trace = trace }, continue (some j))
        ]
      ]

  -- A round at a step whose condition holds.
  unfoldable pub run_turn : ℕ → Step → Flow → Flow × Turn
  unfolding mark_running change_step emit
  run_turn i s flow =
      let w = record (change_step i (mark_running now) flow.workflow) {
        current_step = s.step_num;
      } in
      let trace =
        emit engine w.id (NexusEvent.step_started s.step_num s.name s.agent.name) flow.trace in
      (record { workflow = w; trace = trace }, stop (activated i))

  -- A round at a step whose condition does not hold.
  unfoldable pub skip_turn : ℕ → Step → Flow → Flow × Turn
  unfolding mark_skipped change_step emit audit get_next_step
  skip_turn i s flow =
      let w = record (change_step i (mark_skipped now) flow.workflow) {
        current_step = s.step_num;
      } in
      let trace =
        emit engine w.id
          (NexusEvent.step_skipped_condition s.step_num s.name s.agent.name s.condition)
          (audit w.id (AuditEvent.step_skipped_condition s.step_num s.name s.condition)
            flow.trace) in
      (record { workflow = w; trace = trace }, continue (get_next_step w))

  unfoldable pub advance_turn : ℕ → Flow → Flow × Turn
  unfolding router_turn run_turn skip_turn evaluate_condition
  advance_turn i flow = elim (step_at flow.workflow i) [
    | none ↦ (flow, continue none)
    | some s ↦ elim s.routes [
      | _ ∷ _ ↦ router_turn i s flow
      | [] ↦
          if evaluate_condition engine.eval s.condition context true
          then run_turn i s flow
          else skip_turn i s flow
    ]
  ]

  -- `while next_step: …`, and the completion of the workflow after it.
  unfoldable pub advance_loop : ℕ → Option ℕ → Flow → Flow × Outcome
  unfolding advance_turn
  advance_loop zero next flow = (flow, out_of_fuel)
  advance_loop (suc fuel) none flow =
      (record flow { workflow = finish now flow.workflow }, finished)
  advance_loop (suc fuel) (some i) flow = elim (advance_turn i flow).1 [
    | stop o ↦ ((advance_turn i flow).0, o)
    | continue next ↦ advance_loop fuel next (advance_turn i flow).0
  ]

-- The re-activations that a step has left, over all steps.
unfoldable pub activations_left : ℕ → List Step → ℕ
activations_left limit [] = 0
activations_left limit (s ∷ ss) = (limit - s.iteration) + activations_left limit ss

unfoldable pub max_step_num : List Step → ℕ
max_step_num [] = 0
max_step_num (s ∷ ss) = max s.step_num (max_step_num ss)

-- A round re-activates a step or goes on to a step with the next number.
unfoldable pub advance_fuel : ℕ → Workflow → ℕ
unfolding activations_left max_step_num
advance_fuel limit w =
    activations_left limit w.steps * (max_step_num w.steps + 2) + (max_step_num w.steps + 2)

-- The first value of `next_step`: the target of `on_success`, reset unless it is pending, or else
-- the step after the current one. The other case is the RuntimeError of the reset.
pub data Start : Type 0 where
  start : Workflow → Option ℕ → Start
  refused : ℕ → Start

unfoldable pub first_step : ℕ → Step → Workflow → Start
unfolding reset_step_for_goto get_next_step find_step_by_name
first_step limit done w =
    if truthy done.on_success
    then (elim done.on_success [
      | none ↦ start w (get_next_step w)
      | some name ↦ elim (find_step_by_name w name) [
        | none ↦ start w (get_next_step w)
        | some j ↦ elim (step_at w j) [
          | none ↦ start w (some j)
          | some s ↦
              if is_pending s.status
              then start w (some j)
              else (elim (reset_step_for_goto limit j w) [
                | none ↦ refused j
                | some w' ↦ start w' (some j)
              ])
        ]
      ]
    ])
    else start w (get_next_step w)

unfoldable pub advance_after_success : Engine → ℕ → Step → Flow → Flow × Outcome
unfolding first_step advance_loop advance_fuel build_step_context
advance_after_success engine now done flow =
    elim (first_step engine.max_loop_iterations done flow.workflow) [
      | refused j ↦ (flow, reset_error j)
      | start w next ↦
          advance_loop engine now (build_step_context flow.workflow)
            (advance_fuel engine.max_loop_iterations w) next (record flow { workflow = w })
    ]

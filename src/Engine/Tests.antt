-- ===== src/Engine/Tests.antt =====
-- Runs of the engine on the sample, and the theorems at it.
use nexus_arc.Base.{
  mem_text, decimal, ◌≡◌, refl, sym, ap, ◌≢◌, none, some, List, [], ◌∷◌, map, arith,
}
use nexus_arc.Engine.Values.{empty, get, put, update, setdefault}
use nexus_arc.Engine.Model.{
  Step, step_at, WorkflowState, StepStatus, Workflow, get_step, get_next_step, is_complete,
  active_agent_type,
}
use nexus_arc.Engine.Gates.{
  has_approval_gate, pr_merge_gate, human_approval_gate, add_gate, merge_gate_step, step_label,
  needs_approval, human_gate_step, apply_approval_gates, check_pr_merge_allowed,
}
use nexus_arc.Engine.Retry.{
  effective_strategy, compute_retry_backoff, max_retries, apply_retry_transition,
}
use nexus_arc.Engine.Routing.{
  eval_locals, evaluate_condition, note_step, note_steps, build_step_context, dash_runs, slugify,
  names_step, find_step_by_name, target_name, is_default, default_name, route_taken, route_name,
  resolve_route_target,
}
use nexus_arc.Engine.World.{World, load, store_at, emit, audit, save_workflow}
use nexus_arc.Engine.Advance.{
  Flow, out_of_fuel, reset_step, at_limit, change_step, reset_step_for_goto, mark_skipped,
  mark_running, finish, router_turn, run_turn, skip_turn, advance_turn, advance_loop,
  activations_left, max_step_num, advance_fuel, first_step, advance_after_success,
}
use nexus_arc.Engine.Control.{
  raise, ok, audit_in, emit_in, create_workflow, get_workflow, start_first_step, emit_optional,
  started, start_workflow, pause_workflow, resume_workflow, cancelled_now, cancel_workflow,
}
use nexus_arc.Engine.Complete.{
  completed_event, record_result, complete_now, error_text, call_complete,
  finalize_terminal_success, call_back, finalize_step_completion_tail, retry_step, fail_workflow,
  after_advance, succeed, react, complete_at, complete_step,
}
use nexus_arc.Engine.Calls.{cancel, start, complete, perform}
use nexus_arc.Engine.Termination.{advance_after_success_total}
use nexus_arc.Engine.Activation.{Explains, advance_after_success-Explains}
use nexus_arc.Engine.Reach.{
  IsValid, IsFresh, Reports, created, called, Reach, here, next, Reach-IsValid,
}
use nexus_arc.Engine.Transitions.{Follows}
use nexus_arc.Engine.Lifecycle.{perform-Follows}
use nexus_arc.Engine.Acceptance.{error_of, refusal, error_of-perform}
use nexus_arc.Engine.Samples.{
  engine, policy, plan, sample, empty_world, world_of, workflow_of, created_world, started_run,
  planned_run, cancelled_run, shipped_run,
}

unfoldable pub program : Unit {0}
unfolding get put update setdefault get_step get_next_step is_complete active_agent_type
    has_approval_gate pr_merge_gate human_approval_gate add_gate merge_gate_step step_label
    needs_approval human_gate_step apply_approval_gates check_pr_merge_allowed effective_strategy
    compute_retry_backoff max_retries apply_retry_transition eval_locals evaluate_condition
    note_step note_steps build_step_context dash_runs slugify names_step find_step_by_name
    target_name is_default default_name route_taken route_name resolve_route_target load store_at
    emit audit save_workflow reset_step at_limit change_step reset_step_for_goto mark_skipped
    mark_running finish router_turn run_turn skip_turn advance_turn advance_loop activations_left
    max_step_num advance_fuel first_step advance_after_success audit_in emit_in create_workflow
    get_workflow start_first_step emit_optional started start_workflow pause_workflow
    resume_workflow cancelled_now cancel_workflow completed_event record_result complete_now
    error_text call_complete finalize_terminal_success call_back finalize_step_completion_tail
    retry_step fail_workflow after_advance succeed react complete_at complete_step perform
    created_world started_run planned_run cancelled_run shipped_run mem_text decimal
program = tt

statuses : Workflow → List StepStatus
statuses w = map (λ s. s.status) w.steps

statuses_planned :
    statuses (workflow_of planned_run)
    ≡ StepStatus.completed ∷ StepStatus.skipped ∷ StepStatus.running ∷ []
unfolding program statuses
statuses_planned = refl

state_shipped : (workflow_of shipped_run).state ≡ WorkflowState.completed
unfolding program
state_shipped = refl

-- The cancelled workflow keeps its running step, and a result for it still moves the workflow on.
statuses_cancelled :
    (statuses (workflow_of cancelled_run)
      ≡ StepStatus.running ∷ StepStatus.pending ∷ StepStatus.pending ∷ [])
    × (statuses
          (workflow_of (perform engine 9 "wf" (complete 1 empty none) (world_of cancelled_run)))
        ≡ StepStatus.completed ∷ StepStatus.skipped ∷ StepStatus.running ∷ [])
unfolding program statuses
statuses_cancelled = (refl, refl)

plan_done : Step
plan_done = record plan { status = StepStatus.completed; completed_at = some 3 }

flow : Flow
flow = record { workflow = workflow_of started_run; trace = [] }

advance_after_success_total_example :
    (advance_after_success engine 3 plan_done flow).1 ≢ out_of_fuel
advance_after_success_total_example = advance_after_success_total engine 3 plan_done flow

advance_after_success-Explains_example :
    Explains engine
      (build_step_context flow.workflow)
      (advance_after_success engine 3 plan_done flow).1
      (advance_after_success engine 3 plan_done flow).0.workflow
advance_after_success-Explains_example = advance_after_success-Explains engine 3 plan_done flow

pub empty_world-IsValid : IsValid 5 empty_world.store
unfolding program
empty_world-IsValid = record {
  keyed = λ k w e. absurd (ground (arith, e));
  sound = λ k w e. absurd (ground (arith, e));
}

pub sample-IsFresh : IsFresh sample
sample-IsFresh = record {
  not_over = refl;
  all_pending = ((refl, refl), ((refl, refl), ((refl, refl), tt)));
}

start_ok :
    perform engine 2 "wf" start created_world ≡ ok (workflow_of started_run) (world_of started_run)
unfolding program
start_ok = refl

complete_ok :
    perform engine 3 "wf" (complete 1 empty none) (world_of started_run)
    ≡ ok (workflow_of planned_run) (world_of planned_run)
unfolding program
complete_ok = refl

plan-Reports : Reports engine 3 "wf" (complete 1 empty none) (world_of started_run)
unfolding program
plan-Reports w i s found g a =
    let is_w : workflow_of started_run ≡ w = cc found in
    let is_i : some 0 ≡ some i = rw (← is_w) at g in
    let is_0 : 0 ≡ i = cc is_i in
    let is_s : step_at (workflow_of started_run) 0 ≡ some s = rw (← is_w, ← is_0) at a in
    ap (λ o. elim o [ none ↦ StepStatus.running | some x ↦ x.status ]) (sym is_s)

planned-Reach : Reach engine empty_world (world_of planned_run)
unfolding created_world
planned-Reach =
    next
      (next (next here (created policy 1 sample empty_world sample-IsFresh))
        (called 2 "wf" start created_world _ (world_of started_run) tt start_ok))
      (called 3 "wf" (complete 1 empty none) (world_of started_run) _ _ plan-Reports complete_ok)

Reach-IsValid_example : IsValid 5 (world_of planned_run).store
Reach-IsValid_example = Reach-IsValid engine planned-Reach empty_world-IsValid

cancel_ok :
    perform engine 3 "wf" cancel (world_of started_run)
    ≡ ok (workflow_of cancelled_run) (world_of cancelled_run)
unfolding program
cancel_ok = refl

started_found : load "wf" (world_of started_run).store ≡ some (workflow_of started_run)
unfolding program
started_found = refl

perform-Follows_example : Follows cancel (workflow_of started_run) (workflow_of cancelled_run)
perform-Follows_example =
    perform-Follows engine 3 "wf" cancel (world_of started_run) (workflow_of started_run)
      (workflow_of cancelled_run) (world_of cancelled_run) started_found cancel_ok

error_of-perform_example :
    error_of (perform engine 9 "wf" cancel (world_of cancelled_run))
    ≡ refusal "wf" cancel (load "wf" (world_of cancelled_run).store)
error_of-perform_example = error_of-perform engine 9 "wf" (world_of cancelled_run) cancel

-- A result for the final step of the workflow that was cancelled ends it as completed.
cancelled_completed :
    (elim (complete_step engine 9 "wf" 3 empty none (world_of cancelled_run)) [
      | ok w world ↦ w.state
      | raise e ↦ WorkflowState.cancelled
    ])
    ≡ WorkflowState.completed
unfolding program
cancelled_completed = refl

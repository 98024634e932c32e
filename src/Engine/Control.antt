-- ===== src/Engine/Control.antt =====
-- The operations of `WorkflowEngine` (nexus/core/workflow.py) that create, load, start, pause, resume
-- and cancel a workflow. An operation returns the new world beside the workflow, or raises and
-- leaves the world as it was. `now` is the instant of the call.
use nexus_arc.Base.{ℕ, String, Option, none, some, if◌then◌else◌}
use nexus_arc.Engine.Model.{Workflow, WorkflowState, get_step, step_at, is_pending}
use nexus_arc.Engine.Gates.{Policy, apply_approval_gates}
use nexus_arc.Engine.World.{Engine, World, AuditEvent, NexusEvent, load, save_workflow, emit, audit}
use nexus_arc.Engine.Advance.{change_step, mark_running}

pub data Error : Type 0 where
  workflow_not_found : String → Error
  step_not_found : ℕ → Error
  bad_state : WorkflowState → Error
  overflow : Error

pub data Result : Type 0 where
  ok : Workflow → World → Result
  raise : Error → Result

unfoldable pub audit_in : String → AuditEvent → World → World
audit_in workflow_id e world = record world { trace = audit workflow_id e world.trace }

unfoldable pub emit_in : Engine → String → NexusEvent → World → World
emit_in engine workflow_id e world = record world { trace = emit engine workflow_id e world.trace }

unfoldable pub create_workflow : Policy → ℕ → Workflow → World → Workflow × World
create_workflow policy now w world =
    let w' =
      apply_approval_gates policy
        (record w { state = WorkflowState.pending; created_at = now; updated_at = now }) in
    (w', audit_in w'.id (AuditEvent.workflow_created w'.name) (save_workflow w' world))

unfoldable pub get_workflow : Policy → String → World → Option Workflow
get_workflow policy workflow_id world = elim (load workflow_id world.store) [
  | none ↦ none
  | some w ↦ some (apply_approval_gates policy w)
]

-- The part of `start_workflow` about step 1: the workflow, and the event of the started step.
unfoldable pub start_first_step : ℕ → Workflow → Workflow × Option NexusEvent
start_first_step now w = elim (get_step w 1) [
  | none ↦ (w, none)
  | some i ↦ elim (step_at w i) [
    | none ↦ (w, none)
    | some s ↦
        if is_pending s.status
        then (
          record (change_step i (mark_running now) w) { current_step = s.step_num },
          some (NexusEvent.step_started s.step_num s.name s.agent.name),
        )
        else (w, none)
  ]
]

unfoldable pub emit_optional : Engine → String → Option NexusEvent → World → World
emit_optional engine workflow_id none world = world
emit_optional engine workflow_id (some e) world = emit_in engine workflow_id e world

module _ (engine : Engine) (now : ℕ) (workflow_id : String) where
  unfoldable pub started : Workflow → World → Result
  started w world =
      let (w', e) =
        start_first_step now
          (record w { state = WorkflowState.running; updated_at = now; current_step = 0 }) in
      ok w' (
        emit_in engine workflow_id NexusEvent.workflow_started (
          audit_in workflow_id AuditEvent.workflow_started
            (save_workflow w' (emit_optional engine workflow_id e world))))

  unfoldable pub start_workflow : World → Result
  start_workflow world = elim (load workflow_id world.store) [
    | none ↦ raise (workflow_not_found workflow_id)
    | some w ↦ elim w.state [
      | WorkflowState.pending ↦ started w world
      | other ↦ raise (bad_state other)
    ]
  ]

  unfoldable pub pause_workflow : World → Result
  pause_workflow world = elim (load workflow_id world.store) [
    | none ↦ raise (workflow_not_found workflow_id)
    | some w ↦
        let w' = record w { state = WorkflowState.paused; updated_at = now } in
        elim w.state [
          | WorkflowState.running ↦ ok w' (
              emit_in engine workflow_id NexusEvent.workflow_paused
                (audit_in workflow_id AuditEvent.workflow_paused (save_workflow w' world)))
          | other ↦ raise (bad_state other)
        ]
  ]

  unfoldable pub resume_workflow : World → Result
  resume_workflow world = elim (load workflow_id world.store) [
    | none ↦ raise (workflow_not_found workflow_id)
    | some w ↦
        let w' = record w { state = WorkflowState.running; updated_at = now } in
        elim w.state [
          | WorkflowState.paused ↦
              ok w' (audit_in workflow_id AuditEvent.workflow_resumed (save_workflow w' world))
          | other ↦ raise (bad_state other)
        ]
  ]

  unfoldable pub cancelled_now : Workflow → World → Result
  cancelled_now w world =
      let w' = record w {
        state = WorkflowState.cancelled;
        updated_at = now;
        completed_at = some now;
      } in
      ok w' (
        emit_in engine workflow_id NexusEvent.workflow_cancelled
          (audit_in workflow_id AuditEvent.workflow_cancelled (save_workflow w' world)))

  unfoldable pub cancel_workflow : World → Result
  cancel_workflow world = elim (load workflow_id world.store) [
    | none ↦ raise (workflow_not_found workflow_id)
    | some w ↦ elim w.state [
      | WorkflowState.running ↦ cancelled_now w world
      | WorkflowState.paused ↦ cancelled_now w world
      | other ↦ raise (bad_state other)
    ]
  ]

-- ===== src/Engine/Complete.antt =====
-- `WorkflowEngine.complete_step` (nexus/core/workflow.py) with `apply_step_completion_result` of
-- nexus/core/workflow_engine/completion_service.py and the two finalizers of
-- nexus/core/workflow_engine/audit_event_service.py. A callback is an effect of the trace: what it
-- raises is only logged, and it does not change the workflow that it is handed.
use nexus_arc.Base.{
  ℕ, String, Bool, true, false, not, ◌&&◌, Option, none, some, ◌∷◌, if◌then◌else◌, truthy, length,
  count_if,
}
use nexus_arc.Engine.Values.{Dict}
use nexus_arc.Engine.Model.{
  Step, StepStatus, Workflow, WorkflowState, get_step, step_at, is_completed,
}
use nexus_arc.Engine.Retry.{apply_retry_transition}
use nexus_arc.Engine.World.{Engine, World, Effect, AuditEvent, NexusEvent, load, save_workflow}
use nexus_arc.Engine.Advance.{
  Flow, Outcome, activated, finished, reset_error, out_of_fuel, change_step, advance_after_success,
}
use nexus_arc.Engine.Control.{
  Result, ok, raise, workflow_not_found, step_not_found, overflow, audit_in, emit_in,
}

abbrev is_failed : StepStatus → Bool
is_failed StepStatus.failed = true
is_failed _ = false

abbrev is_skipped : StepStatus → Bool
is_skipped StepStatus.skipped = true
is_skipped _ = false

unfoldable pub completed_event : Workflow → NexusEvent
completed_event w =
    NexusEvent.workflow_completed (length w.steps) (count_if (λ s. is_completed s.status) w.steps)
      (count_if (λ s. is_failed s.status) w.steps) (count_if (λ s. is_skipped s.status) w.steps)

-- The three assignments that record a result on the step.
unfoldable pub record_result : ℕ → Dict → Option String → Step → Step
record_result now outputs error s = record s {
  completed_at = some now;
  outputs = outputs;
  error = error;
}

unfoldable pub complete_now : ℕ → Dict → Option String → Step → Step
complete_now now outputs error s = record (record_result now outputs error s) {
  status = StepStatus.completed;
}

-- `error or "Unknown error"`
unfoldable pub error_text : Option String → String
error_text none = "Unknown error"
error_text (some e) = if truthy (some e) then e else "Unknown error"

module _ (engine : Engine) (now : ℕ) (workflow_id : String) where
  module _ (outputs : Dict) where
    -- `if on_workflow_complete: …`
    unfoldable pub call_complete : Workflow → World → World
    call_complete w world =
        if engine.on_workflow_complete
        then record world { trace = Effect.workflow_complete w outputs ∷ world.trace }
        else world

    unfoldable pub finalize_terminal_success : Step → Workflow → World → Result
    finalize_terminal_success s w world =
        let w' = record w {
          state = WorkflowState.completed;
          completed_at = some now;
          updated_at = now;
        } in
        ok w' (
          call_complete w' (
            emit_in engine workflow_id (completed_event w') (
              audit_in workflow_id (AuditEvent.step_completed s.step_num s.name none)
                (save_workflow w' world))))

    -- The callback at the end: of the transition, or else of the completion.
    unfoldable pub call_back : Option String → Option ℕ → Workflow → World → World
    call_back error activated_step w world =
        let at_end : World = elim w.state [
          | WorkflowState.completed ↦ call_complete w world
          | _ ↦ world
        ] in
        elim activated_step [
          | none ↦ at_end
          | some num ↦
              if not (truthy error) && engine.on_step_transition
              then record world { trace = Effect.step_transition w num outputs ∷ world.trace }
              else at_end
        ]

    unfoldable pub finalize_step_completion_tail :
        Option String → Step → Option ℕ → Workflow → World → Result
    finalize_step_completion_tail error s activated_step w world =
        let w' = record w { updated_at = now } in
        let e =
          if truthy error
          then AuditEvent.step_failed s.step_num s.name error
          else AuditEvent.step_completed s.step_num s.name error in
        ok w' (call_back error activated_step w' (audit_in workflow_id e (save_workflow w' world)))

    -- The step failed and is tried again: it is pending with one more retry counted.
    unfoldable pub retry_step : Option String → Step → ℕ → Workflow → World → Result
    retry_step error s backoff w world =
        let w' = record w { updated_at = now } in
        ok w' (
          audit_in workflow_id (AuditEvent.step_retry s.step_num s.name s.retry_count backoff error)
            (save_workflow w' world))

    -- The step failed for good, and the workflow with it.
    unfoldable pub fail_workflow : Option String → Step → Workflow → World → Result
    fail_workflow error s w world =
        let w' = record w { state = WorkflowState.failed; completed_at = some now } in
        finalize_step_completion_tail error s none w' (
          emit_in engine workflow_id (NexusEvent.workflow_failed (error_text error)) (
            emit_in engine workflow_id (NexusEvent.step_failed s.step_num s.name s.agent.name error)
              world))

    -- After the search for the next step. (With enough fuel the last case is not taken.)
    unfoldable pub after_advance : Option String → Step → Flow × Outcome → World → Result
    after_advance error s (flow, reset_error j) world =
        let w = record (flow.workflow) { state = WorkflowState.failed; completed_at = some now } in
        ok w (save_workflow w (record world { trace = flow.trace }))
    after_advance error s (flow, activated i) world =
        let num : Option ℕ = elim (step_at flow.workflow i) [
          | none ↦ none
          | some t ↦ some t.step_num
        ] in
        finalize_step_completion_tail error s num flow.workflow
          (record world { trace = flow.trace })
    after_advance error s (flow, finished) world =
        finalize_step_completion_tail error s none flow.workflow (
          emit_in engine workflow_id (completed_event flow.workflow)
            (record world { trace = flow.trace }))
    after_advance error s (flow, out_of_fuel) world =
        finalize_step_completion_tail error s none flow.workflow
          (record world { trace = flow.trace })

  -- The step completed with no error.
  unfoldable pub succeed : Dict → Option String → Step → Workflow → World → Result
  succeed outputs error s w world =
      let told =
        emit_in engine workflow_id
          (NexusEvent.step_completed s.step_num s.name s.agent.name outputs) world in
      if s.final_step
      then finalize_terminal_success outputs s w told
      else after_advance outputs error s
          (advance_after_success engine now s (record { workflow = w; trace = told.trace })) told

  -- The branch of a result with an error, after its retry transition.
  unfoldable pub react :
      Dict → Option String → ℕ → Step × Option (Option ℕ) → Workflow → World → Result
  react outputs error i (s, some (some delay)) w world =
      retry_step outputs error s delay (change_step i (λ _. s) w) world
  react outputs error i (s, some none) w world = raise overflow
  react outputs error i (s, none) w world =
      fail_workflow outputs error s (change_step i (λ _. s) w) world

  unfoldable pub complete_at : ℕ → Step → Dict → Option String → Workflow → World → Result
  complete_at i s outputs error w world =
      if truthy error
      then react outputs error i
          (apply_retry_transition engine.default_backoff_base (record_result now outputs error s)) w
          world
      else succeed outputs error (complete_now now outputs error s)
          (change_step i (λ _. complete_now now outputs error s) w) world

  unfoldable pub complete_step : ℕ → Dict → Option String → World → Result
  complete_step step_num outputs error world = elim (load workflow_id world.store) [
    | none ↦ raise (workflow_not_found workflow_id)
    | some w ↦ elim (get_step w step_num) [
      | none ↦ raise (step_not_found step_num)
      | some i ↦ elim (step_at w i) [
        | none ↦ raise (step_not_found step_num)
        | some s ↦ complete_at i s outputs error w world
      ]
    ]
  ]

-- ===== src/Engine/Acceptance.antt =====
-- The calls of the engine and the errors that they raise.
use nexus_arc.Base.{
  ℕ, ◌≡◌, refl, Option, none, some, arith, true, false, String, Bool, Option-cases, inl, inr, not,
  ◌&&◌, truthy, ltb, leb, str_eq, ap, sym, ◌∙◌,
}
use nexus_arc.Engine.Values.{Dict}
use nexus_arc.Engine.Model.{Step, Workflow, WorkflowState, get_step, step_at}
use nexus_arc.Engine.World.{Engine, World, load}
use nexus_arc.Engine.Measure.{get_step-num}
use nexus_arc.Engine.Control.{
  Error, Result, ok, raise, bad_state, step_not_found, workflow_not_found, overflow, started,
  cancelled_now, start_workflow, pause_workflow, resume_workflow, cancel_workflow,
}
use nexus_arc.Engine.Complete.{complete_step, complete_at, record_result}
use nexus_arc.Engine.Retry.{
  max_retries, effective_strategy, compute_retry_backoff, apply_retry_transition,
}
use nexus_arc.Engine.Completes.{
  CompletesResult, complete_at-Completes, retried, gave_up, ended, searched, attempt,
}
use nexus_arc.Engine.Calls.{Call, start, pause, resume, cancel, complete, perform, perform_missing}

-- What a call raises.
abbrev pub error_of : Result → Option Error
error_of (ok w world) = none
error_of (raise e) = some e

-- The error, unless a test holds.
abbrev unless : Bool → Error → Option Error
unless true e = none
unless false e = some e

abbrev may_start : WorkflowState → Bool
may_start WorkflowState.pending = true
may_start _ = false

abbrev may_pause : WorkflowState → Bool
may_pause WorkflowState.running = true
may_pause _ = false

abbrev may_resume : WorkflowState → Bool
may_resume WorkflowState.paused = true
may_resume _ = false

abbrev may_cancel : WorkflowState → Bool
may_cancel WorkflowState.running = true
may_cancel WorkflowState.paused = true
may_cancel _ = false

abbrev at_index : Workflow → Option ℕ → Option Step
at_index w none = none
at_index w (some i) = step_at w i

abbrev step_of : Workflow → ℕ → Option Step
step_of w step_num = at_index w (get_step w step_num)

-- A failed step would be tried again so often that the doubled delay is no float.
abbrev overflows : Option String → Step → Bool
overflows error s =
    truthy error
    && (ltb s.retry_count (max_retries s)
        && (leb 1024 s.retry_count
            && (not (str_eq (effective_strategy s.backoff_strategy) "linear")
                && not (str_eq (effective_strategy s.backoff_strategy) "constant"))))

abbrev completion_refusal : ℕ → Option String → Option Step → Option Error
completion_refusal step_num error none = some (step_not_found step_num)
completion_refusal step_num error (some s) = unless (not (overflows error s)) overflow

-- What each call refuses, by the workflow that is stored under the id.
abbrev pub refusal : String → Call → Option Workflow → Option Error
refusal id call none = some (workflow_not_found id)
refusal id start (some w) = unless (may_start w.state) (bad_state w.state)
refusal id pause (some w) = unless (may_pause w.state) (bad_state w.state)
refusal id resume (some w) = unless (may_resume w.state) (bad_state w.state)
refusal id cancel (some w) = unless (may_cancel w.state) (bad_state w.state)
refusal id (complete step_num outputs error) (some w) =
    completion_refusal step_num error (step_of w step_num)

abbrev is_overflow : Option (Option ℕ) → Bool
is_overflow (some none) = true
is_overflow _ = false

attempt-overflows :
    (engine : Engine) (now : ℕ) (outputs : Dict) (error : Option String) (i : ℕ) (s : Step)
    (w : Workflow)
    → truthy error ≡ true
    → is_overflow (attempt engine now outputs error i s w).1 ≡ overflows error s
unfolding apply_retry_transition compute_retry_backoff max_retries record_result
attempt-overflows engine now outputs error i s w bad = ground (arith, bad)

module _ (engine : Engine) (now : ℕ) (workflow_id : String) (world : World) where
  error_of-complete_step :
      (step_num : ℕ) (outputs : Dict) (error : Option String) (w : Workflow)
      → load workflow_id world.store ≡ some w
      → error_of (complete_step engine now workflow_id step_num outputs error world)
        ≡ completion_refusal step_num error (step_of w step_num)
  unfolding complete_step
  error_of-complete_step step_num outputs error w found =
      elim (Option-cases (get_step w step_num)) [
        | inl g ↦ rw (found, complete_step) (rw (g, complete_step) refl)
        | inr (i, g) ↦
            let (s, a, _) = get_step-num w step_num g in
            rw (found, complete_step)
              (rw (g, a, complete_step)
                (of_Completes i s (complete_at engine now workflow_id i s outputs error w world)
                  (complete_at-Completes engine now outputs error i s w workflow_id world)))
      ]
    where
      unless_not :
          (i : ℕ) (s : Step)
          → truthy error ≡ true
          → is_overflow (attempt engine now outputs error i s w).1 ≡ false
          → none ≡ unless (not (overflows error s)) overflow
      unless_not i s bad e =
          let fits : overflows error s ≡ false =
            sym (attempt-overflows engine now outputs error i s w bad) ∙ e in
          rw (fits) refl

      of_Completes :
          (i : ℕ) (s : Step) (r : Result)
          → CompletesResult engine now outputs error i s w r
          → error_of r ≡ unless (not (overflows error s)) overflow
      of_Completes i s (ok w' world') (retried delay bad e) = unless_not i s bad (ap is_overflow e)
      of_Completes i s (ok w' world') (gave_up bad e) = unless_not i s bad (ap is_overflow e)
      of_Completes i s (ok w' world') (ended good final) = rw (good) refl
      of_Completes i s (ok w' world') (searched o u good more ends) = rw (good) refl
      of_Completes i s (raise e) (is_overflow_error, bad, a) =
          let over : overflows error s ≡ true =
            sym (attempt-overflows engine now outputs error i s w bad) ∙ ap is_overflow a in
          rw (over) (ap some is_overflow_error)

  error_of-perform_stored :
      (call : Call) (w : Workflow)
      → load workflow_id world.store ≡ some w
      → error_of (perform engine now workflow_id call world) ≡ refusal workflow_id call (some w)
  unfolding perform start_workflow pause_workflow resume_workflow cancel_workflow started
      cancelled_now
  error_of-perform_stored start w found = ground arith
  error_of-perform_stored pause w found = ground arith
  error_of-perform_stored resume w found = ground arith
  error_of-perform_stored cancel w found = ground arith
  error_of-perform_stored (complete step_num outputs error) w found =
      error_of-complete_step step_num outputs error w found

  -- A call raises exactly what it should: "not found" if no workflow is stored under the id; the
  -- state of the workflow if it starts one that is not pending, pauses one that is not running, resumes
  -- one that is not paused or cancels one that is neither running nor paused; and for a completion,
  -- which looks at no state, the number of a step that is not there, or the overflow of the delay of
  -- a failed step. Else it succeeds.
  pub error_of-perform :
      (call : Call)
      → error_of (perform engine now workflow_id call world)
        ≡ refusal workflow_id call (load workflow_id world.store)
  error_of-perform call = elim (Option-cases (load workflow_id world.store)) [
    | inl gone ↦ rw (perform_missing engine now workflow_id call world gone, gone)
    | inr (w, found) ↦ rw (found) (error_of-perform_stored call w found)
  ]

-- ===== src/Engine/Cases.antt =====
-- The ways that a call on a stored workflow can go: what holds of each holds of the call.
use nexus_arc.Base.{ℕ, ◌≡◌, refl, ◌⊎◌, inl, inr, String, Option, some, Option-cases}
use nexus_arc.Engine.Values.{Dict}
use nexus_arc.Engine.Model.{Step, Workflow, WorkflowState, get_step, step_at}
use nexus_arc.Engine.World.{Engine, World, load}
use nexus_arc.Engine.Control.{
  Error, Result, ok, raise, started, cancelled_now, start_workflow, pause_workflow, resume_workflow,
  cancel_workflow,
}
use nexus_arc.Engine.Complete.{complete_step, complete_at}

module _ (engine : Engine) (now : ℕ) (workflow_id : String) (P : Result → Type 0)
    (raised : (e : Error) → P (raise e)) (w : Workflow) (world : World)
    (found : load workflow_id world.store ≡ some w) where
  pub start_workflow_ind :
      (w.state ≡ WorkflowState.pending → P (started engine now workflow_id w world))
      → P (start_workflow engine now workflow_id world)
  unfolding start_workflow
  start_workflow_ind accepted = go w.state refl
    where
      go : (st : WorkflowState) → w.state ≡ st → P (start_workflow engine now workflow_id world)
      go WorkflowState.pending e = simp (found, e, start_workflow) ((accepted e))
      go WorkflowState.running e = rw (found, start_workflow) (rw (e, start_workflow) (raised _))
      go WorkflowState.paused e = rw (found, start_workflow) (rw (e, start_workflow) (raised _))
      go WorkflowState.completed e = rw (found, start_workflow) (rw (e, start_workflow) (raised _))
      go WorkflowState.failed e = rw (found, start_workflow) (rw (e, start_workflow) (raised _))
      go WorkflowState.cancelled e = rw (found, start_workflow) (rw (e, start_workflow) (raised _))

  pub pause_workflow_ind :
      (w.state ≡ WorkflowState.running
        → (world' : World)
        → P (ok (record w { state = WorkflowState.paused; updated_at = now }) world'))
      → P (pause_workflow engine now workflow_id world)
  unfolding pause_workflow
  pause_workflow_ind accepted = go w.state refl
    where
      go : (st : WorkflowState) → w.state ≡ st → P (pause_workflow engine now workflow_id world)
      go WorkflowState.running e = simp (found, e, pause_workflow) ((accepted e _))
      go WorkflowState.pending e = rw (found, pause_workflow) (rw (e, pause_workflow) (raised _))
      go WorkflowState.paused e = rw (found, pause_workflow) (rw (e, pause_workflow) (raised _))
      go WorkflowState.completed e = rw (found, pause_workflow) (rw (e, pause_workflow) (raised _))
      go WorkflowState.failed e = rw (found, pause_workflow) (rw (e, pause_workflow) (raised _))
      go WorkflowState.cancelled e = rw (found, pause_workflow) (rw (e, pause_workflow) (raised _))

  pub resume_workflow_ind :
      (w.state ≡ WorkflowState.paused
        → (world' : World)
        → P (ok (record w { state = WorkflowState.running; updated_at = now }) world'))
      → P (resume_workflow engine now workflow_id world)
  unfolding resume_workflow
  resume_workflow_ind accepted = go w.state refl
    where
      go : (st : WorkflowState) → w.state ≡ st → P (resume_workflow engine now workflow_id world)
      go WorkflowState.paused e = simp (found, e, resume_workflow) ((accepted e _))
      go WorkflowState.pending e = rw (found, resume_workflow) (rw (e, resume_workflow) (raised _))
      go WorkflowState.running e = rw (found, resume_workflow) (rw (e, resume_workflow) (raised _))
      go WorkflowState.completed e =
          rw (found, resume_workflow) (rw (e, resume_workflow) (raised _))
      go WorkflowState.failed e = rw (found, resume_workflow) (rw (e, resume_workflow) (raised _))
      go WorkflowState.cancelled e =
          rw (found, resume_workflow) (rw (e, resume_workflow) (raised _))

  pub cancel_workflow_ind :
      ((w.state ≡ WorkflowState.running) ⊎ (w.state ≡ WorkflowState.paused)
        → P (cancelled_now engine now workflow_id w world))
      → P (cancel_workflow engine now workflow_id world)
  unfolding cancel_workflow
  cancel_workflow_ind accepted = go w.state refl
    where
      go : (st : WorkflowState) → w.state ≡ st → P (cancel_workflow engine now workflow_id world)
      go WorkflowState.running e = simp (found, e, cancel_workflow) ((accepted (inl e)))
      go WorkflowState.paused e = simp (found, e, cancel_workflow) ((accepted (inr e)))
      go WorkflowState.pending e = rw (found, cancel_workflow) (rw (e, cancel_workflow) (raised _))
      go WorkflowState.completed e =
          rw (found, cancel_workflow) (rw (e, cancel_workflow) (raised _))
      go WorkflowState.failed e = rw (found, cancel_workflow) (rw (e, cancel_workflow) (raised _))
      go WorkflowState.cancelled e =
          rw (found, cancel_workflow) (rw (e, cancel_workflow) (raised _))

  pub complete_step_ind :
      (step_num : ℕ) (outputs : Dict) (error : Option String)
      → ((i : ℕ) (s : Step)
          → get_step w step_num ≡ some i
          → step_at w i ≡ some s
          → P (complete_at engine now workflow_id i s outputs error w world))
      → P (complete_step engine now workflow_id step_num outputs error world)
  unfolding complete_step
  complete_step_ind step_num outputs error accepted = elim (Option-cases (get_step w step_num)) [
    | inl g ↦ rw (found, complete_step) (rw (g, complete_step) (raised _))
    | inr (i, g) ↦ elim (Option-cases (step_at w i)) [
      | inl a ↦ rw (found, complete_step) (rw (g, a, complete_step) (raised _))
      | inr (s, a) ↦ rw (found, complete_step) (rw (g, a, complete_step) (accepted i s g a))
    ]
  ]

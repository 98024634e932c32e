-- ===== src/Engine/Transitions.antt =====
-- The diagram of the states of a workflow, and the calls that start, pause, resume and cancel it.
use nexus_arc.Base.{inl, inr, ℕ, ◌≡◌, refl, ◌⊎◌, Option, some, String}
use nexus_arc.Engine.Values.{Dict}
use nexus_arc.Engine.Model.{Workflow, WorkflowState}
use nexus_arc.Engine.World.{Engine, World, load}
use nexus_arc.Engine.Advance.{change_step, mark_running}
use nexus_arc.Engine.Kept.{definitions, definitions-change_step}
use nexus_arc.Engine.Control.{
  Result, ok, raise, started, cancelled_now, start_workflow, pause_workflow, resume_workflow,
  cancel_workflow,
}
use nexus_arc.Engine.ControlInv.{start_first_step_ind}
use nexus_arc.Engine.Cases.{
  start_workflow_ind, pause_workflow_ind, resume_workflow_ind, cancel_workflow_ind,
}
use nexus_arc.Engine.Calls.{Call, start, pause, resume, cancel, complete}

-- The transition of each call. A completion keeps the state, or ends the workflow.
pub data Transition : Call → WorkflowState → WorkflowState → Type 0 where
  starts : Transition start WorkflowState.pending WorkflowState.running
  pauses : Transition pause WorkflowState.running WorkflowState.paused
  resumes : Transition resume WorkflowState.paused WorkflowState.running
  cancels_running : Transition cancel WorkflowState.running WorkflowState.cancelled
  cancels_paused : Transition cancel WorkflowState.paused WorkflowState.cancelled
  completes :
      {step_num : ℕ} {outputs : Dict} {error : Option String} {s t : WorkflowState}
      → (t ≡ s) ⊎ (t ≡ WorkflowState.completed) ⊎ (t ≡ WorkflowState.failed)
      → Transition (complete step_num outputs error) s t

-- What a call did to the workflow that it loaded: its id and the definitions of its steps stand,
-- and its state went along the diagram.
pub record Follows (call : Call) (v w : Workflow) : Type 0 where
  pub same_id : w.id ≡ v.id
  pub same_definitions : definitions w ≡ definitions v
  pub transition : Transition call v.state w.state

abbrev pub FollowsResult : Call → Workflow → Result → Type 0
FollowsResult call v (ok w world') = Follows call v w
FollowsResult call v (raise e) = Unit

module _ (engine : Engine) (now : ℕ) (workflow_id : String) where
  started-Follows :
      (w : Workflow) (world : World)
      → w.state ≡ WorkflowState.pending
      → FollowsResult start w (started engine now workflow_id w world)
  unfolding started change_step mark_running
  started-Follows w world e =
      start_first_step_ind (Follows start w) now _
        (record { same_id = refl; same_definitions = refl; transition = rw e starts })
        (λ i s there. record {
          same_id = refl;
          same_definitions = definitions-change_step i (mark_running now) w (λ _. refl);
          transition = rw e starts;
        })

  module _ (w : Workflow) (world : World) (found : load workflow_id world.store ≡ some w) where
    pub start-Follows : FollowsResult start w (start_workflow engine now workflow_id world)
    start-Follows =
        start_workflow_ind engine now workflow_id (FollowsResult start w) (λ e. tt) w world found
          (started-Follows w world)

    pub pause-Follows : FollowsResult pause w (pause_workflow engine now workflow_id world)
    pause-Follows =
        pause_workflow_ind engine now workflow_id (FollowsResult pause w) (λ e. tt) w world found
          (λ e world'. record { same_id = refl; same_definitions = refl; transition = rw e pauses })

    pub resume-Follows : FollowsResult resume w (resume_workflow engine now workflow_id world)
    resume-Follows =
        resume_workflow_ind engine now workflow_id (FollowsResult resume w) (λ e. tt) w world found
          (λ e world'. record {
            same_id = refl;
            same_definitions = refl;
            transition = rw e resumes;
          })

    pub cancel-Follows : FollowsResult cancel w (cancel_workflow engine now workflow_id world)
    unfolding cancelled_now
    cancel-Follows =
        cancel_workflow_ind engine now workflow_id (FollowsResult cancel w) (λ e. tt) w world found
          (λ e. record {
            same_id = refl;
            same_definitions = refl;
            transition = elim e [ inl r ↦ rw r cancels_running | inr p ↦ rw p cancels_paused ];
          })

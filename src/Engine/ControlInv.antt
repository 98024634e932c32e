-- ===== src/Engine/ControlInv.antt =====
-- The invariant under `start_workflow`, `pause_workflow`, `resume_workflow` and `cancel_workflow`.
use nexus_arc.Base.{
  ℕ, ◌≡◌, refl, ◌∙◌, ◌≢◌, inl, inr, Option, some, String, is_some, Option-cases, Bool-cases,
}
use nexus_arc.Engine.Model.{
  Step, Workflow, WorkflowState, step_at, is_complete, get_step, is_pending,
}
use nexus_arc.Engine.World.{Engine, World, load}
use nexus_arc.Engine.Moves.{run_step}
use nexus_arc.Engine.Kept.{IsBounded, RunsNone}
use nexus_arc.Engine.Control.{
  Result, ok, raise, start_workflow, pause_workflow, resume_workflow, cancel_workflow, started,
  cancelled_now, start_first_step,
}
use nexus_arc.Engine.Cases.{
  start_workflow_ind, pause_workflow_ind, resume_workflow_ind, cancel_workflow_ind,
}
use nexus_arc.Engine.Invariant.{Inv, Inv-RunsNone, run_step-Inv}

-- A change of the state alone, of a workflow that was started.
Inv-change_state :
    {limit : ℕ} {w : Workflow} (state : WorkflowState) (updated : ℕ) (at_end : Option ℕ)
    → state ≢ WorkflowState.pending
    → let w' = record w { state = state; updated_at = updated; completed_at = at_end } in
      is_some at_end ≡ is_complete w' → Inv limit w → Inv limit w'
Inv-change_state state updated at_end begun timed inv = record {
  bounded = inv.bounded;
  timed = timed;
  alone = inv.alone;
  current = inv.current;
  idle = λ e. absurd (begun e);
}

-- Starting a workflow changes it only by making a step the running one, if at all.
pub start_first_step_ind :
    (P : Workflow → Type 0) (now : ℕ) (w : Workflow)
    → P w
    → ((i : ℕ) (s : Step) → step_at w i ≡ some s → P (run_step now i s w))
    → P (start_first_step now w).0
unfolding start_first_step
start_first_step_ind P now w kept run = elim (Option-cases (get_step w 1)) [
  | inl e ↦ rw (e, start_first_step) kept
  | inr (i, e) ↦ elim (Option-cases (step_at w i)) [
    | inl a ↦ rw (e, start_first_step) (rw (a, start_first_step) kept)
    | inr (s, a) ↦ elim (Bool-cases (is_pending s.status)) [
      | inr p ↦ rw (e, start_first_step) (rw (a, p, start_first_step) kept)
      | inl p ↦ rw (e, start_first_step) (rw (a, p, start_first_step) (run i s a))
    ]
  ]
]

start_first_step-Inv :
    {limit : ℕ} (now : ℕ) (w : Workflow)
    → IsBounded limit w
    → is_some w.completed_at ≡ is_complete w
    → w.state ≢ WorkflowState.pending
    → RunsNone w
    → Inv limit (start_first_step now w).0
start_first_step-Inv {limit} now w b t begun quiet =
    start_first_step_ind (Inv limit) now w (Inv-RunsNone b t quiet)
      (λ i s there. run_step-Inv now i s w there b t begun quiet)

-- The invariant of what a call returns.
abbrev pub InvResult : ℕ → Result → Type 0
InvResult limit (ok w world') = Inv limit w
InvResult limit (raise e) = Unit

module _ (engine : Engine) (now : ℕ) (workflow_id : String) where
  open engine use {max_loop_iterations as limit}

  started-Inv :
      (w : Workflow) (world : World)
      → Inv limit w
      → w.state ≡ WorkflowState.pending
      → InvResult limit (started engine now workflow_id w world)
  unfolding started is_complete
  started-Inv w world inv e =
      start_first_step-Inv now _ inv.bounded (inv.timed ∙ (rw (e, is_complete))) (λ p. cc)
        (inv.idle e)

  module _ (w : Workflow) (world : World) (found : load workflow_id world.store ≡ some w)
      (inv : Inv limit w) where
    pub start-Inv : InvResult limit (start_workflow engine now workflow_id world)
    start-Inv =
        start_workflow_ind engine now workflow_id (InvResult limit) (λ e. tt) w world found
          (started-Inv w world inv)

    pub pause-Inv : InvResult limit (pause_workflow engine now workflow_id world)
    unfolding is_complete
    pause-Inv =
        pause_workflow_ind engine now workflow_id (InvResult limit) (λ e. tt) w world found
          (λ e world'.
            Inv-change_state WorkflowState.paused now w.completed_at (λ p. cc)
              (inv.timed ∙ rw (e, is_complete)) inv)

    pub resume-Inv : InvResult limit (resume_workflow engine now workflow_id world)
    unfolding is_complete
    resume-Inv =
        resume_workflow_ind engine now workflow_id (InvResult limit) (λ e. tt) w world found
          (λ e world'.
            Inv-change_state WorkflowState.running now w.completed_at (λ p. cc)
              (inv.timed ∙ rw (e, is_complete)) inv)

    pub cancel-Inv : InvResult limit (cancel_workflow engine now workflow_id world)
    unfolding cancelled_now is_complete
    cancel-Inv =
        cancel_workflow_ind engine now workflow_id (InvResult limit) (λ e. tt) w world found
          (λ _. Inv-change_state WorkflowState.cancelled now (some now) (λ p. cc) refl inv)

-- ===== src/Engine/Completes.antt =====
-- The workflow that `complete_step` returns, by the way it went: tried again, given up, ended by a
-- final step, or gone on from by the search for the next step.
use nexus_arc.Base.{
  ℕ, ◌≡◌, refl, Option, none, some, String, true, false, truthy, if_ind, subst, ap,
}
use nexus_arc.Engine.Values.{Dict}
use nexus_arc.Engine.Model.{Step, Workflow, WorkflowState}
use nexus_arc.Engine.Retry.{apply_retry_transition}
use nexus_arc.Engine.Routing.{build_step_context}
use nexus_arc.Engine.World.{Engine, World}
use nexus_arc.Engine.Advance.{
  Flow, Outcome, activated, finished, reset_error, out_of_fuel, change_step,
}
use nexus_arc.Engine.Moves.{Ends}
use nexus_arc.Engine.Search.{advance_after_success-Ends}
use nexus_arc.Engine.Control.{overflow, Result, ok, raise}
use nexus_arc.Engine.Complete.{
  record_result, complete_now, finalize_terminal_success, finalize_step_completion_tail, retry_step,
  fail_workflow, after_advance, succeed, react, complete_at,
}

-- The workflow that is returned after a search.
abbrev pub after_search : ℕ → Outcome → Workflow → Workflow
after_search now (reset_error j) w = record w {
  state = WorkflowState.failed;
  completed_at = some now;
}
after_search now _ w = record w { updated_at = now }

abbrev pub after_retry : ℕ → ℕ → Step → Workflow → Workflow
after_retry now i s w = record (change_step i (λ _. s) w) { updated_at = now }

abbrev pub after_failure : ℕ → ℕ → Step → Workflow → Workflow
after_failure now i s w = record (change_step i (λ _. s) w) {
  state = WorkflowState.failed;
  completed_at = some now;
  updated_at = now;
}

abbrev pub after_final : ℕ → ℕ → Step → Workflow → Workflow
after_final now i s w = record (change_step i (λ _. s) w) {
  state = WorkflowState.completed;
  completed_at = some now;
  updated_at = now;
}

module _ (engine : Engine) (now : ℕ) (outputs : Dict) (error : Option String) (i : ℕ) (s : Step)
    (w : Workflow) where
  abbrev pub attempt : Step × Option (Option ℕ)
  attempt = apply_retry_transition engine.default_backoff_base (record_result now outputs error s)

  abbrev pub done : Step
  done = complete_now now outputs error s

  pub data Completes : Workflow → Type 0 where
    retried :
        (delay : ℕ)
        → truthy error ≡ true
        → attempt.1 ≡ some (some delay)
        → Completes (after_retry now i attempt.0 w)
    gave_up : truthy error ≡ true → attempt.1 ≡ none → Completes (after_failure now i attempt.0 w)
    ended : truthy error ≡ false → s.final_step ≡ true → Completes (after_final now i done w)
    searched :
        (o : Outcome) (u : Workflow)
        → truthy error ≡ false
        → s.final_step ≡ false
        → Ends engine now
            (build_step_context (change_step i (λ _. done) w))
            (change_step i (λ _. done) w)
            o
            u
        → Completes (after_search now o u)

  abbrev pub CompletesResult : Result → Type 0
  CompletesResult (ok w' world') = Completes w'
  CompletesResult (raise e) = (e ≡ overflow) × (truthy error ≡ true) × (attempt.1 ≡ some none)

  react-Completes :
      (workflow_id : String) (world : World) (r : Step × Option (Option ℕ))
      → truthy error ≡ true
      → attempt ≡ r
      → CompletesResult (react engine now workflow_id outputs error i r w world)
  unfolding react retry_step fail_workflow finalize_step_completion_tail
  react-Completes workflow_id world (t, some (some delay)) bad e =
      subst (λ x. Completes (after_retry now i x w)) (ap (λ r. r.0) e)
        (retried delay bad (ap (λ r. r.1) e))
  react-Completes workflow_id world (t, some none) bad e = (refl, bad, ap (λ r. r.1) e)
  react-Completes workflow_id world (t, none) bad e =
      subst (λ x. Completes (after_failure now i x w)) (ap (λ r. r.0) e)
        (gave_up bad (ap (λ r. r.1) e))

  after_advance-Completes :
      (workflow_id : String) (world : World) (flow : Flow) (o : Outcome)
      → truthy error ≡ false
      → s.final_step ≡ false
      → Ends engine now
          (build_step_context (change_step i (λ _. done) w))
          (change_step i (λ _. done) w)
          o
          flow.workflow
      → CompletesResult (after_advance engine now workflow_id outputs error done (flow, o) world)
  unfolding after_advance finalize_step_completion_tail
  after_advance-Completes workflow_id world flow (reset_error j) good more ends =
      searched (reset_error j) flow.workflow good more ends
  after_advance-Completes workflow_id world flow (activated j) good more ends =
      searched (activated j) flow.workflow good more ends
  after_advance-Completes workflow_id world flow finished good more ends =
      searched finished flow.workflow good more ends
  after_advance-Completes workflow_id world flow out_of_fuel good more ends =
      searched out_of_fuel flow.workflow good more ends

  succeed-Completes :
      (workflow_id : String) (world : World)
      → truthy error ≡ false
      → CompletesResult
          (succeed engine now workflow_id outputs error done (change_step i (λ _. done) w) world)
  unfolding succeed complete_now record_result finalize_terminal_success
  succeed-Completes workflow_id world good =
      if_ind CompletesResult s.final_step (λ final. ended good final)
        (λ more.
          after_advance-Completes workflow_id _ _ _ good more
            (advance_after_success-Ends engine now done _))

  pub complete_at-Completes :
      (workflow_id : String) (world : World)
      → CompletesResult (complete_at engine now workflow_id i s outputs error w world)
  unfolding complete_at
  complete_at-Completes workflow_id world =
      if_ind CompletesResult (truthy error) (λ bad. react-Completes workflow_id world _ bad refl)
        (λ good. succeed-Completes workflow_id world good)

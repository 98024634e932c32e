-- ===== src/Engine/Invariant.antt =====
-- The invariant of a stored workflow, and `complete_step`.
use nexus_arc.Base.{
  ℕ, ◌≤◌, ◌≡◌, refl, sym, ◌∙◌, ◌≢◌, Option, some, arith, String, All-modify_at, All-modify_at_one,
  All-get_elem?, is_some, get_elem?-modify_at_self,
}
use nexus_arc.Engine.Values.{Dict}
use nexus_arc.Engine.Model.{Step, StepStatus, Workflow, WorkflowState, step_at, is_complete}
use nexus_arc.Engine.Retry.{apply_retry_transition}
use nexus_arc.Engine.Routing.{build_step_context}
use nexus_arc.Engine.World.{Engine}
use nexus_arc.Engine.Advance.{
  Outcome, activated, finished, reset_error, out_of_fuel, change_step, mark_running,
}
use nexus_arc.Engine.Moves.{Ends, run_step}
use nexus_arc.Engine.Kept.{
  definition, IsBounded, RunsAtMost, RunsNone, RunsNone-change_step, RunsAtMost-change_step,
  Ends-IsBounded, Ends-RunsAfter, Ends-EndsAs,
}
use nexus_arc.Engine.Complete.{record_result, complete_now}
use nexus_arc.Engine.Completes.{
  Completes, retried, gave_up, ended, searched, attempt, done, after_search,
}

-- At most one step is running, and it is the current one.
pub record Inv (limit : ℕ) (w : Workflow) : Type 0 where
  -- No step was re-activated more often than the limit.
  pub bounded : IsBounded limit w
  -- The time of completion is set exactly if the workflow is over.
  pub timed : is_some w.completed_at ≡ is_complete w
  -- At most one step is running, and it has the current number.
  pub alone :
      (i j : ℕ) (s t : Step)
      → step_at w i ≡ some s
      → step_at w j ≡ some t
      → s.status ≡ StepStatus.running
      → t.status ≡ StepStatus.running
      → i ≡ j
  pub current :
      (i : ℕ) (s : Step)
      → step_at w i ≡ some s
      → s.status ≡ StepStatus.running
      → s.step_num ≡ w.current_step
  -- No step is running before the workflow was started.
  pub idle : w.state ≡ WorkflowState.pending → RunsNone w

-- A workflow that runs no step, or only a step with the current number, meets the last two parts.
pub Inv-RunsNone :
    {limit : ℕ} {w : Workflow}
    → IsBounded limit w
    → is_some w.completed_at ≡ is_complete w
    → RunsNone w
    → Inv limit w
Inv-RunsNone b t q = record {
  bounded = b;
  timed = t;
  alone = λ i j s t a a' r r'. absurd (q i s a r);
  current = λ i s a r. absurd (q i s a r);
  idle = λ _. q;
}

pub Inv-RunsAtMost :
    {limit : ℕ} {w : Workflow} (i : ℕ) (s : Step)
    → IsBounded limit w
    → is_some w.completed_at ≡ is_complete w
    → RunsAtMost i w
    → step_at w i ≡ some s
    → s.step_num ≡ w.current_step
    → w.state ≢ WorkflowState.pending
    → Inv limit w
Inv-RunsAtMost i s b t q there num begun = record {
  bounded = b;
  timed = t;
  alone = λ j k u v a a' r r'. q j u a r ∙ sym (q k v a' r');
  current = λ j u a r. ground (arith, q j u a r);
  idle = λ e. absurd (begun e);
}

-- To make a step the running one, where none is running.
pub run_step-Inv :
    {limit : ℕ} (now i : ℕ) (s : Step) (w : Workflow)
    → step_at w i ≡ some s
    → IsBounded limit w
    → is_some w.completed_at ≡ is_complete w
    → w.state ≢ WorkflowState.pending
    → RunsNone w
    → Inv limit (run_step now i s w)
unfolding mark_running change_step is_complete
run_step-Inv {limit} now i s w there b t begun quiet =
    Inv-RunsAtMost i (mark_running now s)
      (All-modify_at (λ x. x.iteration ≤ limit) w.steps i (mark_running now) (λ x p. p) b) t
      (RunsAtMost-change_step i (mark_running now) w quiet)
      (get_elem?-modify_at_self w.steps i (mark_running now) there) refl begun

pub Ends-ne-out_of_fuel :
    (engine : Engine) (now : ℕ) (context : Dict) {w u : Workflow}
    → ¬ Ends engine now context w out_of_fuel u
Ends-ne-out_of_fuel engine now context e = elim e [ ]

module _ (engine : Engine) (now : ℕ) (outputs : Dict) (error : Option String) (i : ℕ) (s : Step)
    (w : Workflow) where
  open engine use {max_loop_iterations as limit}

  pub attempt-definition : definition (attempt engine now outputs error i s w).0 ≡ definition s
  unfolding apply_retry_transition record_result
  attempt-definition = ground arith

  attempt-iteration : (attempt engine now outputs error i s w).0.iteration ≡ s.iteration
  unfolding apply_retry_transition record_result
  attempt-iteration = ground arith

  attempt_stopped : (attempt engine now outputs error i s w).0.status ≢ StepStatus.running
  unfolding apply_retry_transition record_result
  attempt_stopped = ground arith

  abbrev pub finished_step : Step
  finished_step = done engine now outputs error i s w

  pub done-definition : definition finished_step ≡ definition s
  unfolding complete_now record_result
  done-definition = refl

  done-iteration : finished_step.iteration ≡ s.iteration
  unfolding complete_now record_result
  done-iteration = refl

  done_stopped : finished_step.status ≢ StepStatus.running
  unfolding complete_now
  done_stopped = λ h. cc

  -- With only the completed step running, its completion leaves none.
  quiet_after :
      (t : Step)
      → t.status ≢ StepStatus.running
      → RunsAtMost i w
      → RunsNone (change_step i (λ _. t) w)
  quiet_after t stopped only = RunsNone-change_step i (λ _. t) w (λ _. stopped) only

  IsBounded-after :
      (t : Step)
      → t.iteration ≡ s.iteration
      → step_at w i ≡ some s
      → IsBounded limit w
      → IsBounded limit (change_step i (λ _. t) w)
  unfolding change_step
  IsBounded-after t same there b =
      All-modify_at_one (λ x. x.iteration ≤ limit) w.steps i (λ _. t)
        (λ x e. rw same (All-get_elem? (λ x. x.iteration ≤ limit) w.steps i b there)) b

  -- The invariant after a search, by its outcome.
  after_search-Inv :
      (context : Dict) (o : Outcome) (v u : Workflow)
      → Ends engine now context v o u
      → IsBounded limit v
      → RunsNone v
      → is_some v.completed_at ≡ is_complete v
      → v.state ≢ WorkflowState.pending
      → Inv limit (after_search now o u)
  unfolding is_complete
  after_search-Inv context (reset_error j) v u e b q t begun =
      Inv-RunsNone (Ends-IsBounded engine now context e b) refl
        (Ends-RunsAfter engine now context e q)
  after_search-Inv context finished v u e b q t begun =
      let (_, state, at_end) = Ends-EndsAs engine now context e in
      Inv-RunsNone (Ends-IsBounded engine now context e b) (ground arith)
        (Ends-RunsAfter engine now context e q)
  after_search-Inv context (activated j) v u e b q t begun =
      let (h, activated_step) = Ends-EndsAs engine now context e in
      let (x, there, runs, num) = activated_step in
      Inv-RunsAtMost j x (Ends-IsBounded engine now context e b) (ground arith)
        (Ends-RunsAfter engine now context e q) there num (λ p. begun (cc))
  after_search-Inv context out_of_fuel v u e b q t begun =
      absurd (Ends-ne-out_of_fuel engine now context e)

  only_running : step_at w i ≡ some s → s.status ≡ StepStatus.running → Inv limit w → RunsAtMost i w
  only_running there runs inv = λ j t a r. inv.alone j i t s a there r runs

  -- Completing the running step keeps the invariant, whichever way it goes.
  pub Completes-Inv :
      {w' : Workflow}
      → Completes engine now outputs error i s w w'
      → step_at w i ≡ some s
      → s.status ≡ StepStatus.running
      → Inv limit w
      → Inv limit w'
  unfolding change_step is_complete
  Completes-Inv (retried delay bad e) there runs inv =
      Inv-RunsNone (IsBounded-after _ attempt-iteration there inv.bounded) inv.timed
        (quiet_after _ attempt_stopped (only_running there runs inv))
  Completes-Inv (gave_up bad e) there runs inv =
      Inv-RunsNone (IsBounded-after _ attempt-iteration there inv.bounded) refl
        (quiet_after _ attempt_stopped (only_running there runs inv))
  Completes-Inv (ended good final) there runs inv =
      Inv-RunsNone (IsBounded-after finished_step done-iteration there inv.bounded) refl
        (quiet_after finished_step done_stopped (only_running there runs inv))
  Completes-Inv (searched o u good more e) there runs inv =
      after_search-Inv (build_step_context (change_step i (λ _. finished_step) w)) o _ u e
        (IsBounded-after finished_step done-iteration there inv.bounded)
        (quiet_after finished_step done_stopped (only_running there runs inv)) inv.timed
        (λ p. inv.idle p i s there runs)

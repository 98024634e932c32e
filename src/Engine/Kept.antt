-- ===== src/Engine/Kept.antt =====
-- The search for the next step, and what it does to the steps' definitions, their counters and the
-- running steps.
use nexus_arc.Base.{
  ℕ, ◌<◌, ◌≤◌, ◌≡◌, refl, ◌∙◌, ◌≢◌, inl, inr, none, some, List, map, arith, All, All-modify_at,
  map-modify_at, modify_at-cases, All-modify_at_one, get_elem?-modify_at_self,
}
use nexus_arc.Engine.Values.{Dict, empty}
use nexus_arc.Engine.Model.{Step, StepStatus, Workflow, WorkflowState, step_at}
use nexus_arc.Engine.World.{Engine}
use nexus_arc.Engine.Advance.{
  Outcome, activated, finished, reset_step, change_step, mark_skipped, mark_running, finish,
}
use nexus_arc.Engine.Moves.{
  skip_step, skip, reset, Moves, here, next, Ends, ends_finished, ends_activated, ends_error,
}

-- A step with the fields of its execution put back: what the workflow definition says of it.
abbrev pub definition : Step → Step
definition s = record s {
  outputs = empty;
  status = StepStatus.pending;
  started_at = none;
  completed_at = none;
  error = none;
  retry_count = 0;
  iteration = 0;
}

abbrev pub definitions : Workflow → List Step
definitions w = map definition w.steps

abbrev pub IsBounded : ℕ → Workflow → Type 0
IsBounded limit w = All (λ s. s.iteration ≤ limit) w.steps

-- Only the step at the index may be running.
abbrev pub RunsAtMost : ℕ → Workflow → Type 0
RunsAtMost i w = (j : ℕ) (s : Step) → step_at w j ≡ some s → s.status ≡ StepStatus.running → j ≡ i

abbrev pub RunsNone : Workflow → Type 0
RunsNone w = (j : ℕ) (s : Step) → step_at w j ≡ some s → s.status ≢ StepStatus.running

pub definitions-change_step :
    (i : ℕ) (f : Step → Step) (w : Workflow)
    → ((s : Step) → definition (f s) ≡ definition s)
    → definitions (change_step i f w) ≡ definitions w
unfolding change_step
definitions-change_step i f w h = map-modify_at definition w.steps i f h

pub RunsNone-change_step :
    (i : ℕ) (f : Step → Step) (w : Workflow)
    → ((s : Step) → (f s).status ≢ StepStatus.running)
    → RunsAtMost i w
    → RunsNone (change_step i f w)
unfolding change_step
RunsNone-change_step i f w h only j s there runs = elim (modify_at-cases w.steps i j f there) [
  | inl (e, (t, at_i, same)) ↦ h t (ground arith)
  | inr (other, at_j) ↦ other (only j s at_j runs)
]

pub RunsAtMost-change_step :
    (i : ℕ) (f : Step → Step) (w : Workflow) → RunsNone w → RunsAtMost i (change_step i f w)
unfolding change_step
RunsAtMost-change_step i f w quiet j s there runs = elim (modify_at-cases w.steps i j f there) [
  | inl (e, _) ↦ e
  | inr (_, at_j) ↦ absurd (quiet j s at_j runs)
]

module _ (engine : Engine) (now : ℕ) (context : Dict) where
  Moves-definitions :
      {w u : Workflow} → Moves engine now context w u → definitions u ≡ definitions w
  unfolding mark_skipped reset_step change_step
  Moves-definitions here = refl
  Moves-definitions (next ms (skip u i s there why)) =
      definitions-change_step i (mark_skipped now) u (λ _. refl) ∙ Moves-definitions ms
  Moves-definitions (next ms (reset u i s there lt)) =
      definitions-change_step i reset_step u (λ _. refl) ∙ Moves-definitions ms

  -- A workflow that a search may leave: what holds of it and is kept by each move.
  module _ (P : Workflow → Type 0)
      (skipping : (w : Workflow) (i : ℕ) (s : Step)
        → step_at w i ≡ some s
        → P w
        → P (skip_step now i s w))
      (resetting : (w : Workflow) (i : ℕ) (s : Step)
        → step_at w i ≡ some s
        → s.iteration < engine.max_loop_iterations
        → P w
        → P (change_step i reset_step w)) where
    Moves-keep : {w u : Workflow} → Moves engine now context w u → P w → P u
    Moves-keep here p = p
    Moves-keep (next ms (skip u i s there why)) p = skipping u i s there (Moves-keep ms p)
    Moves-keep (next ms (reset u i s there lt)) p = resetting u i s there lt (Moves-keep ms p)

  Moves-IsBounded :
      {w u : Workflow}
      → Moves engine now context w u
      → IsBounded engine.max_loop_iterations w
      → IsBounded engine.max_loop_iterations u
  unfolding mark_skipped reset_step change_step
  Moves-IsBounded =
      Moves-keep (IsBounded engine.max_loop_iterations)
        (λ w i s there b. All-modify_at _ w.steps i (mark_skipped now) (λ x p. p) b)
        (λ w i s there lt b. All-modify_at_one _ w.steps i reset_step (λ x e. ground arith) b)

  Moves-RunsNone : {w u : Workflow} → Moves engine now context w u → RunsNone w → RunsNone u
  unfolding mark_skipped reset_step
  Moves-RunsNone =
      Moves-keep RunsNone
        (λ w i s there q.
          RunsNone-change_step i (mark_skipped now) w (λ t h. cc) (λ j t a r. absurd (q j t a r)))
        (λ w i s there lt q.
          RunsNone-change_step i reset_step w (λ t h. cc) (λ j t a r. absurd (q j t a r)))

  pub Ends-definitions :
      {w u : Workflow} {o : Outcome} → Ends engine now context w o u → definitions u ≡ definitions w
  unfolding mark_running change_step finish
  Ends-definitions (ends_finished u ms) = Moves-definitions ms
  Ends-definitions (ends_activated u i s ms there routes holds) =
      definitions-change_step i (mark_running now) u (λ _. refl) ∙ Moves-definitions ms
  Ends-definitions (ends_error u i s ms there lt) = Moves-definitions ms

  pub Ends-IsBounded :
      {w u : Workflow} {o : Outcome}
      → Ends engine now context w o u
      → IsBounded engine.max_loop_iterations w
      → IsBounded engine.max_loop_iterations u
  unfolding mark_running change_step finish
  Ends-IsBounded (ends_finished u ms) b = Moves-IsBounded ms b
  Ends-IsBounded (ends_activated u i s ms there routes holds) b =
      All-modify_at _ u.steps i (mark_running now) (λ x p. p) (Moves-IsBounded ms b)
  Ends-IsBounded (ends_error u i s ms there lt) b = Moves-IsBounded ms b

  -- Which steps may run where the search ends.
  abbrev pub RunsAfter : Outcome → Workflow → Type 0
  RunsAfter (activated i) u = RunsAtMost i u
  RunsAfter _ u = RunsNone u

  pub Ends-RunsAfter :
      {w u : Workflow} {o : Outcome} → Ends engine now context w o u → RunsNone w → RunsAfter o u
  unfolding finish
  Ends-RunsAfter (ends_finished u ms) q = Moves-RunsNone ms q
  Ends-RunsAfter (ends_activated u i s ms there routes holds) q =
      RunsAtMost-change_step i (mark_running now) u (Moves-RunsNone ms q)
  Ends-RunsAfter (ends_error u i s ms there lt) q = Moves-RunsNone ms q

  -- What a search says of the workflow itself: which fields it writes, and at which outcome.
  pub record Header (w u : Workflow) : Type 0 where
    pub same_id : u.id ≡ w.id
    pub same_state : u.state ≡ w.state
    pub same_end : u.completed_at ≡ w.completed_at

  Moves-Header : {w u : Workflow} → Moves engine now context w u → Header w u
  unfolding change_step
  Moves-Header here = record { same_id = refl; same_state = refl; same_end = refl }
  Moves-Header (next ms (skip u i s there why)) =
      let h = Moves-Header ms in
      record { same_id = h.same_id; same_state = h.same_state; same_end = h.same_end }
  Moves-Header (next ms (reset u i s there lt)) =
      let h = Moves-Header ms in
      record { same_id = h.same_id; same_state = h.same_state; same_end = h.same_end }

  -- At the end of a search: the workflow is completed if no step was found; else it keeps its
  -- state, and an activated step is running and is the current one.
  abbrev pub EndsAs : Outcome → Workflow → Workflow → Type 0
  EndsAs finished w u =
      (u.id ≡ w.id) × (u.state ≡ WorkflowState.completed) × (u.completed_at ≡ some now)
  EndsAs (activated i) w u =
      Header w u
      × ((s : Step) × (step_at u i ≡ some s)
          × (s.status ≡ StepStatus.running)
          × (s.step_num ≡ u.current_step))
  EndsAs _ w u = Header w u

  pub Ends-EndsAs : {w u : Workflow} {o : Outcome} → Ends engine now context w o u → EndsAs o w u
  unfolding mark_running change_step finish
  Ends-EndsAs (ends_finished u ms) = ((Moves-Header ms).same_id, refl, refl)
  Ends-EndsAs (ends_activated u i s ms there routes holds) = (
    record {
      same_id = (Moves-Header ms).same_id;
      same_state = (Moves-Header ms).same_state;
      same_end = (Moves-Header ms).same_end;
    },
    (mark_running now s, get_elem?-modify_at_self u.steps i (mark_running now) there, refl, refl),
  )
  Ends-EndsAs (ends_error u i s ms there lt) = Moves-Header ms

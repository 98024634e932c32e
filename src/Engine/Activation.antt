-- ===== src/Engine/Activation.antt =====
-- The outcome of the search for the next step.
use nexus_arc.Base.{ℕ, ◌≤◌, ◌≡◌, refl, some, true, [], get_elem?-modify_at_self}
use nexus_arc.Engine.Values.{Dict}
use nexus_arc.Engine.Model.{Step, StepStatus, Workflow, step_at}
use nexus_arc.Engine.Routing.{evaluate_condition, build_step_context}
use nexus_arc.Engine.World.{Engine}
use nexus_arc.Engine.Advance.{
  Flow, Outcome, activated, finished, reset_error, out_of_fuel, mark_running, change_step,
  advance_after_success,
}
use nexus_arc.Engine.Moves.{Ends, ends_activated, ends_finished, ends_error}
use nexus_arc.Engine.Search.{advance_after_success-Ends}

-- An activated step is no router, its condition holds in the context of the steps that were done when
-- the search began, and it is left running and current.
pub record IsActivated (engine : Engine) (context : Dict) (i : ℕ) (w : Workflow) : Type 0 where
  pub step : Step
  pub found : step_at w i ≡ some step
  pub no_router : step.routes ≡ []
  pub condition_holds : evaluate_condition engine.eval step.condition context true ≡ true
  pub running : step.status ≡ StepStatus.running
  pub current : w.current_step ≡ step.step_num

-- What the outcome of the search says: a reported reset error is of a step that has used up its
-- re-activations; an activated step is as `IsActivated` says.
abbrev pub Explains : Engine → Dict → Outcome → Workflow → Type 0
Explains engine context (activated i) w = IsActivated engine context i w
Explains engine context (reset_error i) w =
    (s : Step) × (step_at w i ≡ some s) × (engine.max_loop_iterations ≤ s.iteration)
Explains engine context finished w = Unit
Explains engine context out_of_fuel w = ⊥

Ends-Explains :
    (engine : Engine) (now : ℕ) (context : Dict) {w u : Workflow} {o : Outcome}
    → Ends engine now context w o u
    → Explains engine context o u
unfolding change_step mark_running
Ends-Explains engine now context (ends_finished u ms) = tt
Ends-Explains engine now context (ends_activated u i s ms there routes holds) = record {
  step = mark_running now s;
  found = get_elem?-modify_at_self u.steps i (mark_running now) there;
  no_router = routes;
  condition_holds = holds;
  running = refl;
  current = refl;
}
Ends-Explains engine now context (ends_error u i s ms there lt) = (s, there, lt)

-- The search after a success explains its outcome: see `IsActivated` for a step that it activates;
-- a reset error names a step that was re-activated as often as the limit says; and no other failure
-- is reported.
pub advance_after_success-Explains :
    (engine : Engine) (now : ℕ) (done : Step) (flow : Flow)
    → Explains engine
        (build_step_context flow.workflow)
        (advance_after_success engine now done flow).1
        (advance_after_success engine now done flow).0.workflow
advance_after_success-Explains engine now done flow =
    Ends-Explains engine now _ (advance_after_success-Ends engine now done flow)

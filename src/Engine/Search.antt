-- ===== src/Engine/Search.antt =====
-- The whole search for the next step as a sequence of moves.
use nexus_arc.Base.{ℕ, ◌≡◌, refl, inl, inr, Option, none, some, truthy, Option-cases, Bool-cases}
use nexus_arc.Engine.Values.{Dict}
use nexus_arc.Engine.Model.{is_pending, get_next_step, Step, Workflow, step_at}
use nexus_arc.Engine.Routing.{find_step_by_name, build_step_context}
use nexus_arc.Engine.World.{Engine}
use nexus_arc.Engine.Advance.{
  Flow, Start, start, refused, reset_step_for_goto, first_step, advance_after_success,
}
use nexus_arc.Engine.Measure.{reset_step_for_goto-some}
use nexus_arc.Engine.Termination.{advance_after_success_total}
use nexus_arc.Engine.Moves.{
  find_step_by_name-at, Moves, here, next, reset, Ends, ends_error, Moves-Ends, advance_loop-Ends,
  reset_step_for_goto-none,
}

-- What `first_step` did: nothing to the workflow, a reset, or a reset that was refused.
data FirstStep (limit : ℕ) (w : Workflow) : Start → Type 0 where
  unchanged : (n : Option ℕ) → FirstStep limit w (start w n)
  was_reset :
      (j : ℕ) (w' : Workflow)
      → reset_step_for_goto limit j w ≡ some w'
      → FirstStep limit w (start w' (some j))
  was_refused :
      (j : ℕ) (s : Step)
      → step_at w j ≡ some s
      → reset_step_for_goto limit j w ≡ none
      → FirstStep limit w (refused j)

first_step-FirstStep :
    (limit : ℕ) (done : Step) (w : Workflow) → FirstStep limit w (first_step limit done w)
unfolding first_step
first_step-FirstStep limit done w = elim (Option-cases done.on_success) [
  | inl e ↦ rw (e, first_step) (unchanged (get_next_step w))
  | inr (name, e) ↦ elim (Bool-cases (truthy (some name))) [
    | inr t ↦ rw (e, first_step) (rw (t, first_step) (unchanged (get_next_step w)))
    | inl t ↦ elim (Option-cases (find_step_by_name w name)) [
      | inl f ↦ rw (e, first_step) (rw (t, f, first_step) (unchanged (get_next_step w)))
      | inr (j, f) ↦
          let (s, there) = find_step_by_name-at w name f in
          elim (Bool-cases (is_pending s.status)) [
            | inl p ↦ rw (e, first_step) (rw (t, f, there, p, first_step) (unchanged (some j)))
            | inr p ↦ elim (Option-cases (reset_step_for_goto limit j w)) [
              | inl r ↦
                  rw (e, first_step) (rw (t, f, there, p, r, first_step) (was_refused j s there r))
              | inr (w', r) ↦
                  rw (e, first_step) (rw (t, f, there, p, r, first_step) (was_reset j w' r))
            ]
          ]
    ]
  ]
]

-- The search ends as `Ends` says, from the workflow with the completed step.
pub advance_after_success-Ends :
    (engine : Engine) (now : ℕ) (done : Step) (flow : Flow)
    → Ends engine now
        (build_step_context flow.workflow)
        flow.workflow
        (advance_after_success engine now done flow).1
        (advance_after_success engine now done flow).0.workflow
unfolding advance_after_success
advance_after_success-Ends engine now done flow =
    go (first_step engine.max_loop_iterations done flow.workflow)
      (first_step-FirstStep engine.max_loop_iterations done flow.workflow) refl
  where
    w : Workflow
    w = flow.workflow

    context : Dict
    context = build_step_context w

    searched :
        (w' : Workflow) (n : Option ℕ)
        → Moves engine now context w w'
        → first_step engine.max_loop_iterations done w ≡ start w' n
        → Ends engine now context w
            (advance_after_success engine now done flow).1
            (advance_after_success engine now done flow).0.workflow
    searched w' n ms e =
        let total = advance_after_success_total engine now done flow in
        rw (e, advance_after_success)
          (Moves-Ends engine now context ms (
            advance_loop-Ends engine now context _ n (record flow { workflow = w' })
              (rw (e, advance_after_success) at total)))

    go :
        (t : Start)
        → FirstStep engine.max_loop_iterations w t
        → first_step engine.max_loop_iterations done w ≡ t
        → Ends engine now context w
            (advance_after_success engine now done flow).1
            (advance_after_success engine now done flow).0.workflow
    go _ (unchanged n) e = searched w n here e
    go _ (was_reset j w' r) e =
        let (s, there, lt, made) = reset_step_for_goto-some engine.max_loop_iterations j w r in
        searched w' (some j) (rw made (next here (reset w j s there lt))) e
    go _ (was_refused j s there r) e =
        rw (e, advance_after_success)
          (ends_error w j s here there (reset_step_for_goto-none engine now context j w s there r))

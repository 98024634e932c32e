-- ===== src/Engine/Moves.antt =====
-- The search of `advance_after_success` as a step relation: a step is skipped, or a step is
-- re-activated below the limit, until the search ends. The lemmas on the search go by
-- induction over this relation.
use nexus_arc.Base.{
  ℕ, zero, suc, ◌<◌, ◌≤◌, ◌≡◌, refl, ◌≢◌, ◌⊎◌, inl, inr, Option, none, some, [], arith, true, false,
  List-cases, Option-cases, Bool-cases, find_index-some, String,
}
use nexus_arc.Engine.Values.{Dict}
use nexus_arc.Engine.Model.{get_step, get_next_step, Step, Workflow, step_at}
use nexus_arc.Engine.Routing.{
  evaluate_condition, resolve_route_target, route_name, find_step_by_name, Eval,
}
use nexus_arc.Engine.World.{Engine}
use nexus_arc.Engine.Advance.{
  Flow, Outcome, activated, finished, reset_error, out_of_fuel, Turn, continue, stop, reset_step,
  at_limit, change_step, reset_step_for_goto, mark_skipped, mark_running, finish, router_turn,
  skip_turn, run_turn, advance_turn, advance_loop,
}
use nexus_arc.Engine.Measure.{reset_step_for_goto-some}
use nexus_arc.Engine.Termination.{Turn-cases}

-- The workflow after a step was skipped, or made the running one.
abbrev pub skip_step : ℕ → ℕ → Step → Workflow → Workflow
skip_step now i s w = record (change_step i (mark_skipped now) w) { current_step = s.step_num }

abbrev pub run_step : ℕ → ℕ → Step → Workflow → Workflow
run_step now i s w = record (change_step i (mark_running now) w) { current_step = s.step_num }

pub find_step_by_name-at :
    (w : Workflow) (name : String) {i : ℕ}
    → find_step_by_name w name ≡ some i
    → (s : Step) × (step_at w i ≡ some s)
unfolding find_step_by_name
find_step_by_name-at w name e = let (s, there, _) = find_index-some _ w.steps e in (s, there)

pub get_next_step-at :
    (w : Workflow) {i : ℕ} → get_next_step w ≡ some i → (s : Step) × (step_at w i ≡ some s)
unfolding get_next_step get_step
get_next_step-at w e = let (s, there, _) = find_index-some _ w.steps e in (s, there)

pub resolve_route_target-at :
    (eval : Eval) (w : Workflow) (router : Step) (context : Dict) {i : ℕ}
    → resolve_route_target eval w router context ≡ some i
    → (s : Step) × (step_at w i ≡ some s)
unfolding resolve_route_target
resolve_route_target-at eval w router context e =
    elim (Option-cases (route_name eval context none router.routes)) [
      | inl r ↦ absurd (ground arith)
      | inr (name, r) ↦ find_step_by_name-at w name (ground arith)
    ]

module _ (engine : Engine) (now : ℕ) (context : Dict) where
  pub data Move : Workflow → Workflow → Type 0 where
    skip :
        (w : Workflow) (i : ℕ) (s : Step)
        → step_at w i ≡ some s
        → (s.routes ≢ []) ⊎ (evaluate_condition engine.eval s.condition context true ≡ false)
        → Move w (skip_step now i s w)
    reset :
        (w : Workflow) (i : ℕ) (s : Step)
        → step_at w i ≡ some s
        → s.iteration < engine.max_loop_iterations
        → Move w (change_step i reset_step w)

  pub data Moves (w : Workflow) : Workflow → Type 0 where
    here : Moves w w
    next : {u v : Workflow} → Moves w u → Move u v → Moves w v

  -- How a search that began at a workflow ends. An activated step is no router, and its condition
  -- holds.
  pub data Ends (w : Workflow) : Outcome → Workflow → Type 0 where
    ends_finished : (u : Workflow) → Moves w u → Ends w finished (finish now u)
    ends_activated :
        (u : Workflow) (i : ℕ) (s : Step)
        → Moves w u
        → step_at u i ≡ some s
        → s.routes ≡ []
        → evaluate_condition engine.eval s.condition context true ≡ true
        → Ends w (activated i) (run_step now i s u)
    ends_error :
        (u : Workflow) (i : ℕ) (s : Step)
        → Moves w u
        → step_at u i ≡ some s
        → engine.max_loop_iterations ≤ s.iteration
        → Ends w (reset_error i) u

  abbrev TurnResult : Workflow → Turn → Workflow → Type 0
  TurnResult w (stop o) w' = Ends w o w'
  TurnResult w (continue n) w' = Moves w w'

  pub reset_step_for_goto-none :
      (i : ℕ) (w : Workflow) (s : Step)
      → step_at w i ≡ some s
      → reset_step_for_goto engine.max_loop_iterations i w ≡ none
      → engine.max_loop_iterations ≤ s.iteration
  unfolding reset_step_for_goto at_limit
  reset_step_for_goto-none i w s there e = ground arith

  router_turn-TurnResult :
      (i : ℕ) (s : Step) (flow : Flow)
      → step_at flow.workflow i ≡ some s
      → s.routes ≢ []
      → TurnResult flow.workflow
          (router_turn engine now context i s flow).1
          (router_turn engine now context i s flow).0.workflow
  unfolding router_turn
  router_turn-TurnResult i s flow there routes =
      let w = skip_step now i s flow.workflow in
      let skipped = next here (skip flow.workflow i s there (inl routes)) in
      elim (Option-cases (resolve_route_target engine.eval w s context)) [
        | inl r ↦ rw (r, router_turn) (ends_finished w skipped)
        | inr (j, r) ↦ elim (Option-cases (reset_step_for_goto engine.max_loop_iterations j w)) [
          | inl q ↦
              let (t, found) = resolve_route_target-at engine.eval w s context r in
              rw (r, q, router_turn)
                (ends_error w j t skipped found (reset_step_for_goto-none j w t found q))
          | inr (w₂, q) ↦
              let (t, found, lt, made) = reset_step_for_goto-some _ j w q in
              rw (r, q, router_turn) (rw made (next skipped (reset w j t found lt)))
        ]
      ]

  advance_turn-TurnResult :
      (i : ℕ) (flow : Flow) (s : Step)
      → step_at flow.workflow i ≡ some s
      → TurnResult flow.workflow
          (advance_turn engine now context i flow).1
          (advance_turn engine now context i flow).0.workflow
  unfolding advance_turn run_turn skip_turn
  advance_turn-TurnResult i flow s there = elim (List-cases s.routes) [
    | inr (r, rs, e) ↦
        rw (there, advance_turn)
          (rw (e, advance_turn) (router_turn-TurnResult i s flow there (λ h. cc)))
    | inl e ↦ elim (Bool-cases (evaluate_condition engine.eval s.condition context true)) [
      | inl holds ↦
          rw (there, advance_turn)
            (rw (e, holds, advance_turn) (ends_activated flow.workflow i s here there e holds))
      | inr fails ↦
          rw (there, advance_turn)
            (rw (e, fails, advance_turn) (next here (skip flow.workflow i s there (inr fails))))
    ]
  ]

  Moves-trans : {w u v : Workflow} → Moves w u → Moves u v → Moves w v
  Moves-trans ms here = ms
  Moves-trans ms (next ns m) = next (Moves-trans ms ns) m

  pub Moves-Ends : {w u v : Workflow} {o : Outcome} → Moves w u → Ends u o v → Ends w o v
  Moves-Ends ms (ends_finished u ns) = ends_finished u (Moves-trans ms ns)
  Moves-Ends ms (ends_activated u i s ns there routes holds) =
      ends_activated u i s (Moves-trans ms ns) there routes holds
  Moves-Ends ms (ends_error u i s ns there lt) = ends_error u i s (Moves-trans ms ns) there lt

  turn-result :
      (i : ℕ) (flow : Flow)
      → TurnResult flow.workflow
          (advance_turn engine now context i flow).1
          (advance_turn engine now context i flow).0.workflow
  turn-result i flow = elim (Option-cases (step_at flow.workflow i)) [
    | inl gone ↦ unfold advance_turn in rw (gone, advance_turn) here
    | inr (s, there) ↦ advance_turn-TurnResult i flow s there
  ]

  pub advance_loop-Ends :
      (fuel : ℕ) (start_at : Option ℕ) (flow : Flow)
      → (advance_loop engine now context fuel start_at flow).1 ≢ out_of_fuel
      → Ends flow.workflow
          (advance_loop engine now context fuel start_at flow).1
          (advance_loop engine now context fuel start_at flow).0.workflow
  unfolding advance_loop
  advance_loop-Ends zero start_at flow h = absurd (h refl)
  advance_loop-Ends (suc fuel) none flow h = ends_finished flow.workflow here
  advance_loop-Ends (suc fuel) (some i) flow h =
      elim (Turn-cases (advance_turn engine now context i flow).1) [
        | inl (o, e) ↦ rw (e, advance_loop) (rw e at (turn-result i flow))
        | inr (n, e) ↦
            rw (e, advance_loop)
              (Moves-Ends (rw e at (turn-result i flow)) (
                advance_loop-Ends fuel n (advance_turn engine now context i flow).0
                  (rw (e, advance_loop) at h)))
      ]

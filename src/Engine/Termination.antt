-- ===== src/Engine/Termination.antt =====
-- The rounds of the loop of `advance_after_success` against the measure, and its fuel.
use nexus_arc.Base.{
  ℕ, zero, suc, ◌<◌, ◌≡◌, refl, ◌≢◌, Option, none, some, arith, ◌⊎◌, inl, inr, Option-cases, ◌∙◌,
}
use nexus_arc.Engine.Values.{Dict}
use nexus_arc.Engine.Model.{Step, Workflow, step_at, get_next_step}
use nexus_arc.Engine.Routing.{resolve_route_target, build_step_context}
use nexus_arc.Engine.World.{Engine}
use nexus_arc.Engine.Advance.{
  Flow, Outcome, out_of_fuel, Turn, continue, stop, reset_step, change_step, reset_step_for_goto,
  mark_skipped, advance_fuel, router_turn, skip_turn, run_turn, advance_turn, advance_loop,
  first_step, Start, start, refused, advance_after_success,
}
use nexus_arc.Engine.Measure.{
  max_step_num-modify_at, activations_left-modify_at, activations_left-reset, measure, measure-next,
  measure-reset, measure-gone, measure-fuel, reset_step_for_goto-some,
}

pub Turn-cases : (t : Turn) → ((o : Outcome) × (t ≡ stop o)) ⊎ ((n : Option ℕ) × (t ≡ continue n))
Turn-cases (stop o) = inl (o, refl)
Turn-cases (continue n) = inr (n, refl)

pub Start-cases :
    (t : Start) → ((j : ℕ) × (t ≡ refused j)) ⊎ ((w : Workflow) × (n : Option ℕ) × (t ≡ start w n))
Start-cases (refused j) = inl (j, refl)
Start-cases (start w n) = inr (w, n, refl)

module _ (engine : Engine) (now : ℕ) (context : Dict) where
  open engine use {max_loop_iterations as limit}

  skip_turn-measure :
      (i : ℕ) (s : Step) (flow : Flow) (next : Option ℕ)
      → step_at flow.workflow i ≡ some s
      → (skip_turn engine now context i s flow).1 ≡ continue next
      → measure limit (skip_turn engine now context i s flow).0.workflow next
        < measure limit flow.workflow (some i)
  unfolding skip_turn change_step mark_skipped
  skip_turn-measure i s flow next there e =
      let w = flow.workflow in
      let w' = (skip_turn engine now context i s flow).0.workflow in
      let step =
        measure-next limit w w' i there
          (activations_left-modify_at limit w.steps i (mark_skipped now) (λ _. refl))
          (max_step_num-modify_at w.steps i (mark_skipped now) (λ _. refl)) refl in
      let eq : get_next_step w' ≡ next = cc in rw (← eq) step

  router_turn-measure :
      (i : ℕ) (s : Step) (flow : Flow) (next : Option ℕ)
      → step_at flow.workflow i ≡ some s
      → (router_turn engine now context i s flow).1 ≡ continue next
      → measure limit (router_turn engine now context i s flow).0.workflow next
        < measure limit flow.workflow (some i)
  unfolding router_turn change_step mark_skipped
  router_turn-measure i s flow next there e =
      let w = flow.workflow in
      let w₁ = record (change_step i (mark_skipped now) w) { current_step = s.step_num } in
      elim (Option-cases (resolve_route_target engine.eval w₁ s context)) [
        | inl r ↦ absurd (ground arith)
        | inr (j, r) ↦ elim (Option-cases (reset_step_for_goto limit j w₁)) [
          | inl q ↦ absurd (ground arith)
          | inr (w₂, q) ↦
              let (t, found, lt, made) = reset_step_for_goto-some limit j w₁ q in
              let eq : some j ≡ next = ground arith in
              let at_w₂ : (router_turn engine now context i s flow).0.workflow ≡ w₂ =
                ground arith in
              rw (at_w₂, ← eq, made)
                (measure-reset limit w _ i j
                  (activations_left-reset limit w₁.steps j found lt
                    ∙ activations_left-modify_at limit w.steps i (mark_skipped now) (λ _. refl))
                  (max_step_num-modify_at w₁.steps j reset_step (λ _. unfold reset_step in refl)
                    ∙ max_step_num-modify_at w.steps i (mark_skipped now) (λ _. refl)))
        ]
      ]

  advance_turn-measure :
      (i : ℕ) (flow : Flow) (next : Option ℕ)
      → (advance_turn engine now context i flow).1 ≡ continue next
      → measure limit (advance_turn engine now context i flow).0.workflow next
        < measure limit flow.workflow (some i)
  unfolding advance_turn
  advance_turn-measure i flow next e = elim (Option-cases (step_at flow.workflow i)) [
    | inl gone ↦ ground (arith, measure-gone limit flow.workflow i gone)
    | inr (s, there) ↦
        ground
          (arith, router_turn-measure i s flow next there, skip_turn-measure i s flow next there)
  ]

  advance_turn-ne-out_of_fuel :
      (i : ℕ) (flow : Flow) → (advance_turn engine now context i flow).1 ≢ stop out_of_fuel
  unfolding advance_turn router_turn run_turn skip_turn
  advance_turn-ne-out_of_fuel i flow = ground arith

  -- With the measure below the fuel the loop ends.
  advance_loop-ne-out_of_fuel :
      (fuel : ℕ) (next : Option ℕ) (flow : Flow)
      → measure limit flow.workflow next < fuel
      → (advance_loop engine now context fuel next flow).1 ≢ out_of_fuel
  unfolding advance_loop
  advance_loop-ne-out_of_fuel zero next flow h = absurd (omega arith)
  advance_loop-ne-out_of_fuel (suc fuel) none flow h = ground arith
  advance_loop-ne-out_of_fuel (suc fuel) (some i) flow h =
      elim (Turn-cases (advance_turn engine now context i flow).1) [
        | inl (o, e) ↦ ground (arith, advance_turn-ne-out_of_fuel i flow)
        | inr (next, e) ↦ ground (
          arith,
          advance_turn-measure i flow next e,
          advance_loop-ne-out_of_fuel fuel next (advance_turn engine now context i flow).0,
        )
      ]

-- The search for the next step always ends by itself, whatever the routes, the conditions and the
-- evaluator are: the fuel given is enough.
pub advance_after_success_total :
    (engine : Engine) (now : ℕ) (done : Step) (flow : Flow)
    → (advance_after_success engine now done flow).1 ≢ out_of_fuel
unfolding advance_after_success
advance_after_success_total engine now done flow =
    elim (Start-cases (first_step engine.max_loop_iterations done flow.workflow)) [
      | inl (j, e) ↦ ground arith
      | inr (w, next, e) ↦ ground (
        arith,
        advance_loop-ne-out_of_fuel engine now (build_step_context flow.workflow)
            (advance_fuel engine.max_loop_iterations w) next (record flow { workflow = w })
            (measure-fuel engine.max_loop_iterations w next),
      )
    ]

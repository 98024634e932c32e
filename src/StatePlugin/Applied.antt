-- ===== src/StatePlugin/Applied.antt =====
-- What `complete_step_for_issue` hands to the engine.
use nexus_arc.Base.{
  ℕ, zero, suc, String, Bool, true, ◌==◌, ==_iff, ◌≡◌, refl, sym, ap, inl, inr, none, some, List,
  [], ◌∷◌, get_elem?, find_index, is_some, arith, Option-cases,
}
use nexus_arc.Engine.Model.{Step, Workflow, step_at, get_step}
use nexus_arc.Engine.Gates.{apply_approval_gates}
use nexus_arc.Engine.World.{World, load}
use nexus_arc.Engine.Control.{ok}
use nexus_arc.Engine.Complete.{complete_step}
use nexus_arc.Engine.Measure.{get_step-num}
use nexus_arc.Engine.Acceptance.{error_of-perform}
use nexus_arc.Engine.Calls.{complete, perform}
use nexus_arc.StatePlugin.Completion.{
  Plugin, PluginState, Report, returned, mark_completion_outcome, stamped, record_report,
  apply_report,
}
use nexus_arc.StatePlugin.Cases.{Result-cases}
use nexus_arc.StatePlugin.Numbered.{step_at-gates}

pub find_index-there {ℓ} :
    {A : Type ℓ} (p : A → Bool) (xs : List A) (i : ℕ) {x : A}
    → get_elem? xs i ≡ some x
    → p x ≡ true
    → is_some (find_index p xs) ≡ true
find_index-there p [] i there passes = absurd (ground (arith, there))
find_index-there p (y ∷ xs) zero there passes = ground (arith, there, passes)
find_index-there p (y ∷ xs) (suc i) there passes =
    ground (arith, find_index-there p xs i there passes)

get_step-there :
    (v : Workflow) (i : ℕ) {s : Step}
    → step_at v i ≡ some s
    → is_some (get_step v s.step_num) ≡ true
unfolding get_step
get_step-there v i {s} there =
    find_index-there (λ x. x.step_num == s.step_num) v.steps i there ((==_iff _ s.step_num).1 refl)

module _ (plugin : Plugin) (report : Report) (workflow_id : String) (now : ℕ) (writes : Bool)
    (state : PluginState) (v : Workflow) (found : load workflow_id state.world.store ≡ some v) where
  open plugin use {engine, policy}

  get_step-found :
      (i : ℕ) {s : Step}
      → step_at (apply_approval_gates policy v) i ≡ some s
      → (j : ℕ) × (get_step v s.step_num ≡ some j)
  get_step-found i {s} there =
      let (t, at_v, same) = step_at-gates policy v i there in
      let num : t.step_num ≡ s.step_num = sym (ap (λ x. x.step_num) same) in
      elim (Option-cases (get_step v s.step_num)) [
        | inl gone ↦ absurd (ground (arith, num, get_step-there v i at_v, gone))
        | inr found ↦ found
      ]

  -- For a step of the stored workflow.
  pub apply_total :
      (i : ℕ) (s : Step)
      → step_at (apply_approval_gates policy v) i ≡ some s
      → (u : Workflow) × (world' : World) × (perform engine now workflow_id
            (complete s.step_num
              (stamped plugin report workflow_id (apply_approval_gates policy v) s)
              none)
            state.world
          ≡ ok u world')
        × (apply_report plugin report workflow_id now writes (apply_approval_gates policy v) s state
            ≡ (
              returned (mark_completion_outcome true "" u),
              record {
                world = world';
                ledger = record_report plugin report workflow_id now writes s state.ledger;
              },
            ))
  unfolding apply_report perform
  apply_total i s there =
      let call =
        complete s.step_num (stamped plugin report workflow_id (apply_approval_gates policy v) s)
          none in
      elim (Result-cases (
        complete_step engine now workflow_id s.step_num
          (stamped plugin report workflow_id (apply_approval_gates policy v) s) none state.world)) [
            | inl (e, h) ↦
                let (j, named) = get_step-found i there in
                let (x, at_j, _) = get_step-num v s.step_num named in
                absurd (
                  ground (
                    arith,
                    error_of-perform engine now workflow_id state.world call,
                    h,
                    found,
                    named,
                    at_j,
                  ))
            | inr (u, world', h) ↦ (u, world', h, rw (h, apply_report))
          ]

-- ===== src/StatePlugin/Refused.antt =====
-- Reports that `complete_step_for_issue` refuses.
use nexus_arc.Base.{
  ℕ, String, Bool, true, false, ◌≡◌, ◌≢◌, refl, sym, ap, ◌∙◌, inl, inr, some, arith, if◌then◌else◌,
}
use nexus_arc.Engine.Serde.{written}
use nexus_arc.Engine.Model.{Workflow, WorkflowState}
use nexus_arc.Engine.Gates.{apply_approval_gates}
use nexus_arc.Engine.World.{World, load}
use nexus_arc.Engine.Control.{Result, ok, raise}
use nexus_arc.Engine.Calls.{start, perform}
use nexus_arc.StatePlugin.Completion.{
  Plugin, PluginState, Report, Completion, failed_with, returned, Problem, mark_completion_outcome,
  accept, complete_mapped, resolve_workflow_id, complete_step_for_issue,
}
use nexus_arc.StatePlugin.Cases.{
  Run, is_engine_raised, accept_ind_run, accept_loaded-get_workflow, complete_mapped_running,
  complete_mapped_pending, complete_step_for_issue_mapped,
}
use nexus_arc.StatePlugin.Applied.{apply_total}
use nexus_arc.StatePlugin.Sound.{IsSound}
use nexus_arc.StatePlugin.Reported.{pending_or_not, load-perform_self}

-- What a start of a pending workflow leaves, and else the world as it is.
abbrev world_after : Result → World → World
world_after (ok w world') world = world'
world_after (raise e) world = world

abbrev pub is_pending_state : WorkflowState → Bool
is_pending_state WorkflowState.pending = true
is_pending_state _ = false

abbrev pub auto_started : Plugin → ℕ → String → Workflow → World → World
auto_started plugin now id v world =
    if is_pending_state v.state
    then world_after (perform plugin.engine now id start world) world
    else world

abbrev FailsIn : PluginState → Problem → Completion × PluginState → Type 0
FailsIn state problem r =
    (r.0 ≡ failed_with problem) → (r.1 ≡ state) × (is_engine_raised (failed_with problem) ≡ false)

not_pending : (st : WorkflowState) → st ≢ WorkflowState.pending → is_pending_state st ≡ false
not_pending st h = ground (arith, h)

module _ (plugin : Plugin) (report : Report) (workflow_id : String) (now : ℕ) (writes : Bool)
    (problem : Problem) where
  open plugin use {engine, policy}

  accept-FailsIn :
      (state : PluginState) (v : Workflow)
      → load workflow_id state.world.store ≡ some v
      → FailsIn state problem
          (accept plugin report workflow_id now writes (apply_approval_gates policy v) state)
  accept-FailsIn state v found =
      accept_ind_run plugin report workflow_id (λ (r : Run). FailsIn state problem (r now writes))
        (apply_approval_gates policy v) state (λ c own e. (refl, sym (ap is_engine_raised e) ∙ own))
        (λ i s there runs agreed fresh.
          let (u, world', e, applied) =
            apply_total plugin report workflow_id now writes state v found i s there in
          rw applied (λ h. absurd (ne (mark_completion_outcome true "" u) h)))
    where
      ne : (u : Workflow) → ¬ (returned u ≡ failed_with problem)
      ne u h = cc

  complete_mapped-FailsIn :
      (state : PluginState) (v : Workflow)
      → load workflow_id state.world.store ≡ some v
      → v.id ≡ workflow_id
      → FailsIn
          (record state { world = auto_started plugin now workflow_id v state.world })
          problem
          (complete_mapped plugin report workflow_id now writes state)
  complete_mapped-FailsIn state v found keyed = elim (pending_or_not v.state) [
    | inr begun ↦
        rw (complete_mapped_running plugin report workflow_id now writes state v found begun)
          (rw (not_pending v.state begun) (accept-FailsIn state v found))
    | inl waits ↦
        let (u, world', e, runs) =
          complete_mapped_pending plugin report workflow_id now writes state v found waits in
        let found' =
          load-perform_self plugin now workflow_id start state.world v u world' found keyed e in
        rw runs (
          rw
            (accept_loaded-get_workflow plugin report workflow_id now writes state world'
              (written u) found')
            (rw (waits, e) (accept-FailsIn (record state { world = world' }) (written u) found')))
  ]

-- A report on a stored workflow that ends with an exception is refused by the plugin itself, never by the
-- engine, and changes nothing but that a pending workflow was started: the ledger does not
-- note its event. (The storage is sound.)
pub complete_step_for_issue-refused :
    (plugin : Plugin) (now : ℕ) (writes : Bool) (report : Report) (state : PluginState)
    (id : String) (v : Workflow) (problem : Problem)
    → IsSound plugin.engine.max_loop_iterations state.world.store
    → resolve_workflow_id plugin report.issue_number ≡ some id
    → load id state.world.store ≡ some v
    → (complete_step_for_issue plugin now writes report state).0 ≡ failed_with problem
    → ((complete_step_for_issue plugin now writes report state).1
        ≡ record state { world = auto_started plugin now id v state.world })
      × (is_engine_raised (failed_with problem) ≡ false)
complete_step_for_issue-refused plugin now writes report state id v problem sound mapped found =
    rw (complete_step_for_issue_mapped plugin now writes report state id mapped) (
      complete_mapped-FailsIn plugin report id now writes problem state v found
        (sound.valid.keyed id v found))

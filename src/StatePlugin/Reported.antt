-- ===== src/StatePlugin/Reported.antt =====
-- Reports of finished steps, and the storage after `complete_step_for_issue`.
use nexus_arc.Base.{
  ℕ, String, Bool, ◌≡◌, ◌≢◌, ◌⊎◌, refl, ◌∙◌, inl, inr, none, some, Option-cases, eq→str_eq,
}
use nexus_arc.Engine.Serde.{written}
use nexus_arc.Engine.Model.{Workflow, WorkflowState}
use nexus_arc.Engine.Gates.{apply_approval_gates}
use nexus_arc.Engine.World.{World, load}
use nexus_arc.Engine.Control.{ok}
use nexus_arc.Engine.Calls.{Call, start, perform, load-perform}
use nexus_arc.Engine.Lifecycle.{perform-Follows}
use nexus_arc.Engine.Transitions.{Transition, starts}
use nexus_arc.StatePlugin.Completion.{
  Plugin, PluginState, Report, stamped, accept, complete_mapped, resolve_workflow_id,
  complete_step_for_issue,
}
use nexus_arc.StatePlugin.Cases.{
  Run, accept_ind_run, accept_loaded-get_workflow, complete_mapped-none, complete_mapped_running,
  complete_mapped_pending,
}
use nexus_arc.StatePlugin.Applied.{apply_total}
use nexus_arc.StatePlugin.Sound.{IsSound, perform-IsSound, running-Reports}

-- A workflow is pending, or it is not.
pub pending_or_not :
    (st : WorkflowState) → (st ≡ WorkflowState.pending) ⊎ (st ≢ WorkflowState.pending)
pending_or_not WorkflowState.pending = inl refl
pending_or_not WorkflowState.running = inr (λ e. cc)
pending_or_not WorkflowState.paused = inr (λ e. cc)
pending_or_not WorkflowState.completed = inr (λ e. cc)
pending_or_not WorkflowState.failed = inr (λ e. cc)
pending_or_not WorkflowState.cancelled = inr (λ e. cc)

pub start-running : {s t : WorkflowState} → Transition start s t → t ≢ WorkflowState.pending
start-running starts = λ e. cc

-- A call on a sound storage leaves, under its id, what is written of the workflow that it returns.
pub load-perform_self :
    (plugin : Plugin) (now : ℕ) (workflow_id : String) (call : Call) (world : World)
    (v u : Workflow) (world' : World)
    → load workflow_id world.store ≡ some v
    → v.id ≡ workflow_id
    → perform plugin.engine now workflow_id call world ≡ ok u world'
    → load workflow_id world'.store ≡ some (written u)
load-perform_self plugin now id call world v u world' found keyed e =
    let follows = perform-Follows plugin.engine now id call world v u world' found e in
    rw (load-perform plugin.engine now id call world id e)
      (rw (eq→str_eq u.id id (follows.same_id ∙ keyed)))

module _ (plugin : Plugin) (report : Report) (workflow_id : String) (now : ℕ) (writes : Bool) where
  open plugin use {engine, policy}

  accept-IsSound :
      (state : PluginState) (v : Workflow)
      → load workflow_id state.world.store ≡ some v
      → IsSound engine.max_loop_iterations state.world.store
      → IsSound engine.max_loop_iterations
          (accept plugin report workflow_id now writes
            (apply_approval_gates policy v)
            state).1.world.store
  accept-IsSound state v found sound =
      accept_ind_run plugin report workflow_id
        (λ (r : Run). IsSound engine.max_loop_iterations (r now writes).1.world.store)
        (apply_approval_gates policy v) state (λ c _. sound)
        (λ i s there runs agreed fresh.
          let (u, world', e, applied) =
            apply_total plugin report workflow_id now writes state v found i s there in
          rw applied (
            perform-IsSound engine now workflow_id _ state.world
              (running-Reports engine now workflow_id policy state.world v i s
                (stamped plugin report workflow_id (apply_approval_gates policy v) s) none found
                (sound.numbered workflow_id v found) there runs)
              e sound))

  complete_mapped-IsSound :
      (state : PluginState)
      → IsSound engine.max_loop_iterations state.world.store
      → IsSound engine.max_loop_iterations
          (complete_mapped plugin report workflow_id now writes state).1.world.store
  complete_mapped-IsSound state sound = elim (Option-cases (load workflow_id state.world.store)) [
    | inl gone ↦ rw (complete_mapped-none plugin report workflow_id now writes state gone) sound
    | inr (v, found) ↦ elim (pending_or_not v.state) [
      | inr begun ↦
          rw (complete_mapped_running plugin report workflow_id now writes state v found begun)
            (accept-IsSound state v found sound)
      | inl waits ↦
          let (u, world', e, runs) =
            complete_mapped_pending plugin report workflow_id now writes state v found waits in
          let found' =
            load-perform_self plugin now workflow_id start state.world v u world' found
              (sound.valid.keyed workflow_id v found) e in
          rw runs (
            rw
              (accept_loaded-get_workflow plugin report workflow_id now writes state world'
                (written u) found')
              (accept-IsSound (record state { world = world' }) (written u) found'
                (perform-IsSound engine now workflow_id start state.world tt e sound)))
    ]
  ]

-- A report keeps the storage sound.
pub complete_step_for_issue-IsSound :
    (plugin : Plugin) (now : ℕ) (writes : Bool) (report : Report) (state : PluginState)
    → IsSound plugin.engine.max_loop_iterations state.world.store
    → IsSound plugin.engine.max_loop_iterations
        (complete_step_for_issue plugin now writes report state).1.world.store
unfolding complete_step_for_issue
complete_step_for_issue-IsSound plugin now writes report state sound =
    elim (Option-cases (resolve_workflow_id plugin report.issue_number)) [
      | inl e ↦ rw (e, complete_step_for_issue) sound
      | inr (id, e) ↦
          rw (e, complete_step_for_issue)
            (complete_mapped-IsSound plugin report id now writes state sound)
    ]

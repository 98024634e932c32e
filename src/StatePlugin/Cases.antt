-- ===== src/StatePlugin/Cases.antt =====
-- The branches of `accept`.
use nexus_arc.Base.{
  ℕ, String, Bool, true, false, not, ◌||◌, ◌==◌, ◌≡◌, ◌≢◌, ◌⊎◌, refl, inl, inr, none, some,
  find_index, find_index-some, if◌then◌else◌, Option-cases, arith,
}
use nexus_arc.Engine.Model.{Step, StepStatus, Workflow, WorkflowState, step_at, is_running}
use nexus_arc.StatePlugin.Refs.{is_blank, step_ref, agent_ref}
use nexus_arc.StatePlugin.Completion.{
  Plugin, PluginState, Report, Completion, reported_step_id, reported_step_num, already_completed,
  seen_before, agrees, apply_report, check_running, find_running, accept, failed_with, raised_by,
  returned, absent, accept_loaded, auto_start, complete_loaded, complete_mapped,
  resolve_workflow_id, complete_step_for_issue,
}
use nexus_arc.Engine.Gates.{apply_approval_gates}
use nexus_arc.Engine.World.{World, load}
use nexus_arc.Engine.Control.{Error, Result, ok, raise, get_workflow, start_workflow}
use nexus_arc.Engine.Acceptance.{error_of-perform}
use nexus_arc.Engine.Calls.{start, perform}

pub is_running→eq : (status : StepStatus) → is_running status ≡ true → status ≡ StepStatus.running
is_running→eq status h = ground (arith, h)

not-false : (b : Bool) → not b ≡ false → b ≡ true
not-false b h = ground (arith, h)

-- The outcome is an exception of the engine.
abbrev pub is_engine_raised : Completion → Bool
is_engine_raised absent = false
is_engine_raised (returned w) = false
is_engine_raised (failed_with (raised_by e)) = true
is_engine_raised (failed_with _) = false

-- What a report does, for each instant and each state of the ledger's file.
abbrev pub Run : Type 0
Run = ℕ → Bool → Completion × PluginState

if_ind_run {ℓ} :
    (P : Run → Type ℓ) (b : Bool) {x y : Run}
    → (b ≡ true → P x)
    → (b ≡ false → P y)
    → P (λ now writes. if b then x now writes else y now writes)
if_ind_run P true px py = px refl
if_ind_run P false px py = py refl

module _ {ℓ} (plugin : Plugin) (report : Report) (workflow_id : String) (P : Run → Type ℓ)
    (w : Workflow) (state : PluginState)
    (kept : (c : Completion) → is_engine_raised c ≡ false → P (λ now writes. (c, state))) where
  check_running_ind :
      (s : Step)
      → (agrees plugin report workflow_id s ≡ true
          → seen_before plugin report workflow_id s state.ledger ≡ false
          → P (λ now writes. apply_report plugin report workflow_id now writes w s state))
      → P (λ now writes. check_running plugin report workflow_id now writes w s state)
  unfolding check_running
  check_running_ind s applied =
      if_ind_run P (is_blank (step_ref s) || s.step_num == 0) (λ _. kept _ refl)
        (λ _.
          if_ind_run P (is_blank (agent_ref s)) (λ _. kept _ refl)
            (λ _.
              if_ind_run P (not (agrees plugin report workflow_id s)) (λ _. kept _ refl)
                (λ a.
                  if_ind_run P (seen_before plugin report workflow_id s state.ledger)
                    (λ _. kept _ refl) (λ fresh. applied (not-false _ a) fresh))))

  pub accept_ind_run :
      ((i : ℕ) (s : Step)
        → step_at w i ≡ some s
        → s.status ≡ StepStatus.running
        → agrees plugin report workflow_id s ≡ true
        → seen_before plugin report workflow_id s state.ledger ≡ false
        → P (λ now writes. apply_report plugin report workflow_id now writes w s state))
      → P (λ now writes. accept plugin report workflow_id now writes w state)
  unfolding accept find_running
  accept_ind_run applied =
      if_ind_run P
        (is_blank (reported_step_id plugin report workflow_id)
          || reported_step_num plugin report workflow_id == 0)
        (λ _. kept _ refl)
        (λ _.
          if_ind_run P (already_completed plugin report workflow_id w) (λ _. kept _ refl)
            (λ _. elim (Option-cases (find_index (λ s. is_running s.status) w.steps)) [
              | inl e ↦ simp (e, find_running) (kept _ refl)
              | inr (i, e) ↦
                  let (s, there, runs) = find_index-some _ w.steps e in
                  simp (e, there, find_running)
                    (check_running_ind s (applied i s there (is_running→eq s.status runs)))
            ]))

pub Result-cases :
    (r : Result)
    → ((e : Error) × (r ≡ raise e)) ⊎ ((w : Workflow) × (world : World) × (r ≡ ok w world))
Result-cases (raise e) = inl (e, refl)
Result-cases (ok w world) = inr (w, world, refl)

module _ (plugin : Plugin) (report : Report) (workflow_id : String) (now : ℕ) (writes : Bool)
    (state : PluginState) where
  open plugin use {engine, policy}

  pub complete_mapped-none :
      load workflow_id state.world.store ≡ none
      → complete_mapped plugin report workflow_id now writes state ≡ (absent, state)
  unfolding complete_mapped complete_loaded get_workflow
  complete_mapped-none e = rw (e, get_workflow)

  complete_loaded_running :
      (w : Workflow) (st : WorkflowState)
      → w.state ≡ st
      → st ≢ WorkflowState.pending
      → complete_loaded plugin report workflow_id now writes (some w) state
        ≡ accept plugin report workflow_id now writes w state
  unfolding complete_loaded
  complete_loaded_running w WorkflowState.pending e begun = absurd (begun refl)
  complete_loaded_running w WorkflowState.running e begun = simp e
  complete_loaded_running w WorkflowState.paused e begun = simp e
  complete_loaded_running w WorkflowState.completed e begun = simp e
  complete_loaded_running w WorkflowState.failed e begun = simp e
  complete_loaded_running w WorkflowState.cancelled e begun = simp e

  pub accept_loaded-get_workflow :
      (world' : World) (u : Workflow)
      → load workflow_id world'.store ≡ some u
      → accept_loaded plugin report workflow_id now writes
          (get_workflow policy workflow_id world')
          (record state { world = world' })
        ≡ accept plugin report workflow_id now writes
            (apply_approval_gates policy u)
            (record state { world = world' })
  unfolding accept_loaded get_workflow
  accept_loaded-get_workflow world' u found = rw (found, get_workflow)

  module _ (v : Workflow) (found : load workflow_id state.world.store ≡ some v) where
    -- A workflow that is not pending is taken as it is, with its gates.
    pub complete_mapped_running :
        v.state ≢ WorkflowState.pending
        → complete_mapped plugin report workflow_id now writes state
          ≡ accept plugin report workflow_id now writes (apply_approval_gates policy v) state
    unfolding complete_mapped get_workflow
    complete_mapped_running begun =
        rw (found, get_workflow)
          (complete_loaded_running (apply_approval_gates policy v) v.state
            (unfold apply_approval_gates in refl) begun)

    -- A pending workflow is started and loaded again.
    pub complete_mapped_pending :
        v.state ≡ WorkflowState.pending
        → (u : Workflow) × (world' : World) × (perform engine now workflow_id start state.world
            ≡ ok u world')
          × (complete_mapped plugin report workflow_id now writes state
              ≡ accept_loaded plugin report workflow_id now writes
                  (get_workflow policy workflow_id world')
                  (record state { world = world' }))
    unfolding complete_mapped complete_loaded get_workflow apply_approval_gates auto_start perform
    complete_mapped_pending e =
        elim (Result-cases (start_workflow engine now workflow_id state.world)) [
          | inl (x, h) ↦ absurd (
              ground
                (arith, error_of-perform engine now workflow_id state.world start, h, found, e))
          | inr (u, world', h) ↦ (
            u,
            world',
            h,
            rw (found, get_workflow) (rw (e, complete_loaded) (rw (h, auto_start))),
          )
        ]

module _ (plugin : Plugin) (now : ℕ) (writes : Bool) (report : Report) (state : PluginState) where
  pub complete_step_for_issue_unmapped :
      resolve_workflow_id plugin report.issue_number ≡ none
      → complete_step_for_issue plugin now writes report state ≡ (absent, state)
  unfolding complete_step_for_issue
  complete_step_for_issue_unmapped e = rw (e, complete_step_for_issue)

  pub complete_step_for_issue_mapped :
      (id : String)
      → resolve_workflow_id plugin report.issue_number ≡ some id
      → complete_step_for_issue plugin now writes report state
        ≡ complete_mapped plugin report id now writes state
  unfolding complete_step_for_issue
  complete_step_for_issue_mapped id e = rw (e, complete_step_for_issue)

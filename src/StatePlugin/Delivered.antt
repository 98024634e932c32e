-- ===== src/StatePlugin/Delivered.antt =====
-- `complete_step_for_issue` with a report of the running step.
use nexus_arc.Base.{
  ℕ, ◌<◌, [], ◌∷◌, String, Bool, true, false, ◌==◌, ==_iff, ◌≡◌, ◌≢◌, refl, sym, ap, ◌∙◌, inl, inr,
  none, some, find_index, find_index-some, Option-cases, arith, codes, code_eq_refl,
}
use nexus_arc.Engine.Values.{text, number, get}
use nexus_arc.Engine.Model.{
  Step, StepStatus, Workflow, WorkflowState, step_at, is_running, is_completed,
}
use nexus_arc.Engine.Gates.{apply_approval_gates}
use nexus_arc.Engine.World.{World, load}
use nexus_arc.Engine.Control.{ok}
use nexus_arc.Engine.Calls.{complete, perform}
use nexus_arc.StatePlugin.Refs.{
  Text, is_blank, normalize_ref, refs_match, step_ref, agent_ref, ref_text, step_num_of,
}
use nexus_arc.StatePlugin.Completion.{
  Plugin, PluginState, Report, returned, mark_completion_outcome, reported_step_id,
  reported_step_num, completed_agent, is_reported, already_completed, agrees, seen_before, stamped,
  record_report, apply_report, check_running, find_running, accept, resolve_workflow_id,
  complete_step_for_issue,
}
use nexus_arc.StatePlugin.Cases.{
  is_running→eq, complete_mapped_running, complete_step_for_issue_mapped,
}
use nexus_arc.StatePlugin.Applied.{apply_total, find_index-there}
use nexus_arc.StatePlugin.Numbered.{IsNumbered, step_at-gates, gates-IsNumbered}
use nexus_arc.StatePlugin.Sound.{IsSound}

refs_match_refl : (a : Text) → is_blank (normalize_ref a) ≡ false → refs_match a a ≡ true
unfolding refs_match
refs_match_refl a h = ground (arith, code_eq_refl (normalize_ref a))

-- A reference that is not blank after a second pass is not blank after one.
once_more : (a : Text) → is_blank (normalize_ref a) ≡ false → is_blank a ≡ false
unfolding normalize_ref
once_more [] h = h
once_more (c ∷ cs) h = refl

pos-ne-zero : (n : ℕ) → 0 < n → (n == 0) ≡ false
pos-ne-zero n h = ground arith

running-ne-completed : (st : StepStatus) → st ≡ StepStatus.running → is_completed st ≡ false
running-ne-completed st e = rw e

-- The report names the step and its agent as the workflow does.
pub record Names (report : Report) (s : Step) : Type 0 where
  pub named_id : get "step_id" report.outputs ≡ some (text s.name)
  pub named_num : get "step_num" report.outputs ≡ some (number s.step_num)
  pub named_agent : report.completed_agent_type ≡ s.agent.name

-- The step can be named: it has a number, and a name and an agent with more than spaces and "@".
pub record IsNameable (s : Step) : Type 0 where
  pub numbered : 0 < s.step_num
  pub step_named : is_blank (normalize_ref (step_ref s)) ≡ false
  pub agent_named : is_blank (normalize_ref (agent_ref s)) ≡ false

module _ (plugin : Plugin) (report : Report) (workflow_id : String) where
  open plugin use {engine, policy}

  module _ (s : Step) (names : Names report s) where
    num_of : reported_step_num plugin report workflow_id ≡ s.step_num
    unfolding step_num_of
    num_of = ap step_num_of names.named_num

    id_of : reported_step_id plugin report workflow_id ≡ step_ref s
    unfolding ref_text step_ref
    id_of = ap (λ v. normalize_ref (ref_text plugin.show v)) names.named_id

    agent_of : completed_agent plugin report workflow_id ≡ agent_ref s
    unfolding agent_ref
    agent_of = ap (λ a. normalize_ref (codes a)) names.named_agent

    names-is_reported :
        is_blank (normalize_ref (step_ref s)) ≡ false
        → is_reported plugin report workflow_id s ≡ true
    unfolding is_reported
    names-is_reported h =
        rw (id_of, num_of, refs_match_refl (step_ref s) h) ((==_iff s.step_num s.step_num).1 refl)

    names-agrees : IsNameable s → agrees plugin report workflow_id s ≡ true
    unfolding agrees
    names-agrees can =
        rw (names-is_reported can.step_named, agent_of)
          (refs_match_refl (agent_ref s) can.agent_named)

    names-num :
        (t : Step) → is_reported plugin report workflow_id t ≡ true → t.step_num ≡ s.step_num
    unfolding is_reported
    names-num t h = ground (arith, h, num_of)

    names-check_running :
        (w : Workflow) (state : PluginState) (now : ℕ) (writes : Bool)
        → IsNameable s
        → seen_before plugin report workflow_id s state.ledger ≡ false
        → check_running plugin report workflow_id now writes w s state
          ≡ apply_report plugin report workflow_id now writes w s state
    unfolding check_running
    names-check_running w state now writes can fresh = rw (
      once_more (step_ref s) can.step_named,
      pos-ne-zero s.step_num can.numbered,
      once_more (agent_ref s) can.agent_named,
      names-agrees can,
      fresh,
    )

    module _ (w : Workflow) (i : ℕ) (there : step_at w i ≡ some s)
        (runs : s.status ≡ StepStatus.running) where
      -- The reported step is the one that runs.
      names-already_completed : IsNumbered w → already_completed plugin report workflow_id w ≡ false
      unfolding already_completed
      names-already_completed numbered =
          elim (Option-cases (find_index (is_reported plugin report workflow_id) w.steps)) [
            | inl e ↦ rw (e, already_completed)
            | inr (k, e) ↦
                let (t, at_k, reported) = find_index-some _ w.steps e in
                let place : k ≡ i = numbered k i t s at_k there (names-num t reported) in
                let same : t ≡ s = ground (arith, place, at_k, there) in
                rw (e, already_completed)
                  (rw (at_k, already_completed)
                    (rw (running-ne-completed t.status (ap (λ x. x.status) same ∙ runs))))
          ]

      names-accept :
          (state : PluginState) (now : ℕ) (writes : Bool)
          → IsNumbered w
          → ((j : ℕ) (t : Step) → step_at w j ≡ some t → t.status ≡ StepStatus.running → j ≡ i)
          → IsNameable s
          → seen_before plugin report workflow_id s state.ledger ≡ false
          → accept plugin report workflow_id now writes w state
            ≡ apply_report plugin report workflow_id now writes w s state
      unfolding accept find_running
      names-accept state now writes numbered alone can fresh =
          elim (Option-cases (find_index (λ x. is_running x.status) w.steps)) [
            | inl e ↦ absurd (
                ground
                  (arith, e, find_index-there (λ x. is_running x.status) w.steps i there (rw runs)))
            | inr (k, e) ↦
                let (t, at_k, running) = find_index-some _ w.steps e in
                let place : k ≡ i = alone k t at_k (is_running→eq t.status running) in
                let at_i : step_at w k ≡ some s = rw place there in
                rw
                  (
                    id_of,
                    num_of,
                    once_more (step_ref s) can.step_named,
                    pos-ne-zero s.step_num can.numbered,
                    names-already_completed numbered,
                  )
                  (rw (e, find_running)
                    (rw (at_i, find_running) (names-check_running w state now writes can fresh)))
          ]

-- In a sound storage a report that names the running step, its number and its agent as the workflow that
-- `get_workflow` gives (and that is not pending) does is applied, unless its event is in the
-- ledger: the engine completes the step, and the answer is its workflow, marked as applied.
pub complete_step_for_issue-applies :
    (plugin : Plugin) (now : ℕ) (writes : Bool) (report : Report) (state : PluginState)
    (id : String) (v : Workflow) (i : ℕ) (s : Step)
    → IsSound plugin.engine.max_loop_iterations state.world.store
    → resolve_workflow_id plugin report.issue_number ≡ some id
    → load id state.world.store ≡ some v
    → v.state ≢ WorkflowState.pending
    → step_at (apply_approval_gates plugin.policy v) i ≡ some s
    → s.status ≡ StepStatus.running
    → Names report s
    → IsNameable s
    → seen_before plugin report id s state.ledger ≡ false
    → (u : Workflow) × (world' : World) × (perform plugin.engine now id
          (complete s.step_num
            (stamped plugin report id (apply_approval_gates plugin.policy v) s)
            none)
          state.world
        ≡ ok u world')
      × (complete_step_for_issue plugin now writes report state ≡ (
        returned (mark_completion_outcome true "" u),
        record {
          world = world';
          ledger = record_report plugin report id now writes s state.ledger;
        },
      ))
complete_step_for_issue-applies plugin now writes report state id v i s sound mapped found begun
      there runs names can fresh =
    let (u, world', e, applied) = apply_total plugin report id now writes state v found i s there in
    let taken =
      names-accept plugin report id s names (apply_approval_gates plugin.policy v) i there runs
        state now writes (gates-IsNumbered plugin.policy v (sound.numbered id v found)) alone can
        fresh in
    (
      u,
      world',
      e,
      complete_step_for_issue_mapped plugin now writes report state id mapped
          ∙ complete_mapped_running plugin report id now writes state v found begun
          ∙ taken
          ∙ applied,
    )
  where
    alone :
        (j : ℕ) (t : Step)
        → step_at (apply_approval_gates plugin.policy v) j ≡ some t
        → t.status ≡ StepStatus.running
        → j ≡ i
    alone j t at_j running =
        let (s', in_i, p) = step_at-gates plugin.policy v i there in
        let (t', in_j, q) = step_at-gates plugin.policy v j at_j in
        (sound.valid.sound id v found).alone j i t' s' in_j in_i
          (sym (ap (λ x. x.status) q) ∙ running) (sym (ap (λ x. x.status) p) ∙ runs)

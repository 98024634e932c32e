-- ===== src/StatePlugin/Redelivery.antt =====
-- The same report, delivered again.
use nexus_arc.Base.{
  ℕ, String, Bool, true, false, ◌≡◌, ◌≢◌, refl, sym, ap, ◌∙◌, inl, inr, Option, none, some,
  Option-cases, arith, code_eq_refl, is_empty, codes,
}
use nexus_arc.Engine.Serde.{written}
use nexus_arc.Engine.Written.{step_at-written}
use nexus_arc.Engine.Values.{Dict}
use nexus_arc.Engine.Model.{Step, Workflow, WorkflowState, step_at}
use nexus_arc.Engine.Gates.{apply_approval_gates}
use nexus_arc.Engine.World.{World, load}
use nexus_arc.Engine.Control.{ok}
use nexus_arc.Engine.Kept.{definitions}
use nexus_arc.Engine.Calls.{start, complete, perform}
use nexus_arc.Engine.Lifecycle.{perform-Follows}
use nexus_arc.Engine.Transitions.{Transition, completes}
use nexus_arc.IdempotencyLedger.{
  Text, IdempotencyKey, Ledger, save, as_string, is_duplicate, record_key,
}
use nexus_arc.StatePlugin.Refs.{normalize_ref, agent_ref}
use nexus_arc.StatePlugin.Completion.{
  Plugin, PluginState, Report, is_reported, reported_step_num, agrees, report_key, seen_before,
  stamped, record_report, accept, complete_mapped, resolve_workflow_id, complete_step_for_issue,
}
use nexus_arc.StatePlugin.Cases.{
  Run, accept_ind_run, accept_loaded-get_workflow, complete_mapped-none, complete_mapped_running,
  complete_mapped_pending, complete_step_for_issue_unmapped, complete_step_for_issue_mapped,
}
use nexus_arc.StatePlugin.Applied.{apply_total}
use nexus_arc.StatePlugin.Numbered.{IsNumbered, step_at-gates, step_at-definitions}
use nexus_arc.StatePlugin.Sound.{IsSound, perform-IsSound}
use nexus_arc.StatePlugin.Reported.{pending_or_not, start-running, load-perform_self}

-- A recorded key is a duplicate.
is_duplicate_self :
    (digest : Text → Text) (writes : Bool) (k : IdempotencyKey) (l : Ledger)
    → is_duplicate digest k (record_key digest writes k l) ≡ true
unfolding is_duplicate record_key save
is_duplicate_self digest writes k l = ground (arith, code_eq_refl (as_string digest k))

-- A completion makes no workflow pending.
completes-ne-pending :
    {n : ℕ} {outputs : Dict} {error : Option String} {s t : WorkflowState}
    → Transition (complete n outputs error) s t
    → s ≢ WorkflowState.pending
    → t ≢ WorkflowState.pending
completes-ne-pending (completes (inl same)) begun e = begun (sym same ∙ e)
completes-ne-pending (completes (inr (inl over))) begun e = cc
completes-ne-pending (completes (inr (inr over))) begun e = cc

module _ (plugin : Plugin) (report : Report) (workflow_id : String) where
  open plugin use {engine, policy}

  agrees-step_num :
      (s : Step)
      → agrees plugin report workflow_id s ≡ true
      → s.step_num ≡ reported_step_num plugin report workflow_id
  unfolding agrees is_reported
  agrees-step_num s a = ground (arith, a)

  report_key-eq :
      (s t : Step)
      → t.step_num ≡ s.step_num
      → t.agent.name ≡ s.agent.name
      → report_key plugin report workflow_id t ≡ report_key plugin report workflow_id s
  unfolding report_key
  report_key-eq s t num same =
      let ref : agent_ref t ≡ agent_ref s =
        unfold agent_ref in ap (λ a. normalize_ref (codes a)) same in
      ground (arith, num, ref)

  -- Steps of a workflow before and after that both agree with the report have one key.
  report_key-agrees :
      (v u : Workflow) (i j : ℕ) (s t : Step)
      → IsNumbered v
      → definitions u ≡ definitions v
      → step_at (apply_approval_gates policy v) i ≡ some s
      → step_at (apply_approval_gates policy (written u)) j ≡ some t
      → agrees plugin report workflow_id s ≡ true
      → agrees plugin report workflow_id t ≡ true
      → report_key plugin report workflow_id t ≡ report_key plugin report workflow_id s
  report_key-agrees v u i j s t numbered same at_i at_j a b =
      let (s', in_v, p) = step_at-gates policy v i at_i in
      let (t'', in_written, q') = step_at-gates policy (written u) j at_j in
      let (t', in_u, p') = step_at-written u j in_written in
      let (x, before, r) = step_at-definitions v u j same in_u in
      let num : t.step_num ≡ s.step_num = agrees-step_num t b ∙ sym (agrees-step_num s a) in
      let nums : s'.step_num ≡ x.step_num =
        sym (ap (λ y. y.step_num) p)
        ∙ sym num
        ∙ ap (λ y. y.step_num) q'
        ∙ ap (λ y. y.step_num) p'
        ∙ ap (λ y. y.step_num) r in
      let place : i ≡ j = numbered i j s' x in_v before nums in
      let one : s' ≡ x = ground (arith, place, in_v, before) in
      report_key-eq s t num (
        ap (λ y. y.agent.name) q'
        ∙ ap (λ y. y.agent.name) p'
        ∙ ap (λ y. y.agent.name) r
        ∙ sym (ap (λ y. y.agent.name) one)
        ∙ sym (ap (λ y. y.agent.name) p))

  module _ (now later : ℕ) (writes again : Bool) (named : is_empty report.event_id ≡ false) where
    seen_before-record_report :
        (s t : Step) (l : Ledger)
        → report_key plugin report workflow_id t ≡ report_key plugin report workflow_id s
        → seen_before plugin report workflow_id t
            (record_report plugin report workflow_id now writes s l)
          ≡ true
    unfolding seen_before record_report
    seen_before-record_report s t l same =
        rw (named, same)
          (is_duplicate_self plugin.digest writes (report_key plugin report workflow_id s) l)

    -- The second delivery leaves what the first left.
    abbrev Settles : PluginState → Type 0
    Settles state = (complete_mapped plugin report workflow_id later again state).1 ≡ state

    apply_report-Settles :
        (state : PluginState) (v : Workflow) (i : ℕ) (s : Step)
        → IsSound engine.max_loop_iterations state.world.store
        → load workflow_id state.world.store ≡ some v
        → v.state ≢ WorkflowState.pending
        → step_at (apply_approval_gates policy v) i ≡ some s
        → agrees plugin report workflow_id s ≡ true
        → (u : Workflow) (world' : World)
        → perform engine now workflow_id
            (complete s.step_num
              (stamped plugin report workflow_id (apply_approval_gates policy v) s)
              none)
            state.world
          ≡ ok u world'
        → Settles (record {
          world = world';
          ledger = record_report plugin report workflow_id now writes s state.ledger;
        })
    apply_report-Settles state v i s sound found begun there agreed u world' e =
        let follows = perform-Follows engine now workflow_id _ state.world v u world' found e in
        let keyed = sound.valid.keyed workflow_id v found in
        let found' =
          load-perform_self plugin now workflow_id _ state.world v u world' found keyed e in
        let state' : PluginState = record {
          world = world';
          ledger = record_report plugin report workflow_id now writes s state.ledger;
        } in
        rw
          (complete_mapped_running plugin report workflow_id later again state' (written u) found'
            (completes-ne-pending follows.transition begun))
          (accept_ind_run plugin report workflow_id (λ (r : Run). (r later again).1 ≡ state')
            (apply_approval_gates policy (written u)) state' (λ c _. refl)
            (λ j t at_j runs agreed' fresh. absurd (
              cc (
                seen_before-record_report s t state.ledger (
                  report_key-agrees v u i j s t (sound.numbered workflow_id v found)
                    follows.same_definitions there at_j agreed agreed')))))

    accept-Settles :
        (state : PluginState) (v : Workflow)
        → IsSound engine.max_loop_iterations state.world.store
        → load workflow_id state.world.store ≡ some v
        → v.state ≢ WorkflowState.pending
        → Settles
            (accept plugin report workflow_id now writes (apply_approval_gates policy v) state).1
    accept-Settles state v sound found begun =
        accept_ind_run plugin report workflow_id
          (λ (r : Run).
            (r later again).1 ≡ (complete_mapped plugin report workflow_id later again state).1
            → Settles (r now writes).1)
          (apply_approval_gates policy v) state (λ c _ e. sym e)
          (λ i s there runs agreed fresh _.
            let (u, world', e, applied) =
              apply_total plugin report workflow_id now writes state v found i s there in
            rw applied (apply_report-Settles state v i s sound found begun there agreed u world' e))
          (ap (λ r. r.1)
            (sym
              (complete_mapped_running plugin report workflow_id later again state v found begun)))

    complete_mapped-Settles :
        (state : PluginState)
        → IsSound engine.max_loop_iterations state.world.store
        → Settles (complete_mapped plugin report workflow_id now writes state).1
    complete_mapped-Settles state sound = elim (Option-cases (load workflow_id state.world.store)) [
      | inl gone ↦
          rw (complete_mapped-none plugin report workflow_id now writes state gone)
            (rw (complete_mapped-none plugin report workflow_id later again state gone))
      | inr (v, found) ↦ elim (pending_or_not v.state) [
        | inr begun ↦
            rw (complete_mapped_running plugin report workflow_id now writes state v found begun)
              (accept-Settles state v sound found begun)
        | inl waits ↦
            let (u, world', e, runs) =
              complete_mapped_pending plugin report workflow_id now writes state v found waits in
            let keyed = sound.valid.keyed workflow_id v found in
            let found' =
              load-perform_self plugin now workflow_id start state.world v u world' found keyed e in
            let follows =
              perform-Follows engine now workflow_id start state.world v u world' found e in
            rw runs (
              rw
                (accept_loaded-get_workflow plugin report workflow_id now writes state world'
                  (written u) found')
                (accept-Settles (record state { world = world' }) (written u)
                  (perform-IsSound engine now workflow_id start state.world tt e sound) found'
                  (start-running follows.transition)))
      ]
    ]

-- A report with an event id that is delivered twice, at whatever instants and whether or not the ledger's
-- file can be written, does at the second delivery nothing: workflows and ledger stay as the
-- first delivery left them, whatever that did. (The storage is sound.)
pub complete_step_for_issue_twice :
    (plugin : Plugin) (now later : ℕ) (writes again : Bool) (report : Report) (state : PluginState)
    → IsSound plugin.engine.max_loop_iterations state.world.store
    → is_empty report.event_id ≡ false
    → let once = (complete_step_for_issue plugin now writes report state).1 in
      (complete_step_for_issue plugin later again report once).1 ≡ once
complete_step_for_issue_twice plugin now later writes again report state sound named =
    elim (Option-cases (resolve_workflow_id plugin report.issue_number)) [
      | inl e ↦
          rw (complete_step_for_issue_unmapped plugin now writes report state e)
            (rw (complete_step_for_issue_unmapped plugin later again report state e))
      | inr (id, e) ↦ rw (complete_step_for_issue_mapped plugin now writes report state id e) (
          rw (complete_step_for_issue_mapped plugin later again report _ id e)
            (complete_mapped-Settles plugin report id now later writes again named state sound))
    ]

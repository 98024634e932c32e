-- ===== src/StatePlugin/Completion.antt =====
-- `complete_step_for_issue`: an agent's report that it finished a step, checked and handed to
-- `WorkflowEngine.complete_step`. The lock makes the reports for one workflow follow each other, so
-- that a report is one call here. What is raised carries no text.
use nexus_arc.Base.{
  ℕ, String, Bool, true, false, not, ◌&&◌, ◌||◌, ◌==◌, Option, none, some, find_index,
  if◌then◌else◌, codes, str_eq, is_empty,
}
use nexus_arc.Engine.Values.{Value, boolean, number, text, Dict, empty, entry, get, put}
use nexus_arc.Engine.Model.{Step, Workflow, WorkflowState, step_at, is_completed, is_running}
use nexus_arc.Engine.Gates.{Policy}
use nexus_arc.Engine.World.{Engine, World}
use nexus_arc.Engine.Control.{Error, ok, raise, get_workflow, start_workflow}
use nexus_arc.Engine.Complete.{complete_step}
use nexus_arc.IdempotencyLedger.{IdempotencyKey, Ledger, is_duplicate, record_key}
use nexus_arc.StatePlugin.Refs.{
  Text, is_blank, normalize_ref, refs_match, step_ref, agent_ref, ref_text, step_num_of,
}
use nexus_arc.StatePlugin.Outputs.{Node, normalize_completion_outputs}

-- The configuration, with what the plugin calls: the engine, the map from issues to workflows, the
-- parser of conditions, the text of a list or dictionary, and the digest of the ledger.
pub record Plugin : Type 0 where
  pub engine : Engine
  pub policy : Policy
  pub issue_to_workflow_id : String → Option String
  pub parse : String → Option Node
  pub show : Value → Text
  pub digest : Text → Text

pub record PluginState : Type 0 where
  pub world : World
  pub ledger : Ledger

pub record Report : Type 0 where
  pub issue_number : String
  pub completed_agent_type : String
  pub outputs : Dict
  pub event_id : String

-- CompletionSchemaError: of the report, or of the running step. CompletionStaleError: no step is
-- running, or another one. What `complete_step` raises goes through.
pub data Problem : Type 0 where
  report_schema step_schema agent_missing : Problem
  nothing_running mismatched : Problem
  raised_by : Error → Problem

-- None, a workflow, or an exception.
pub data Completion : Type 0 where
  absent : Completion
  returned : Workflow → Completion
  failed_with : Problem → Completion

-- `d.pop(k, None)`
unfoldable pub pop : String → Dict → Dict
pop k empty = empty
pop k (entry j v d) = let rest = pop k d in if str_eq j k then rest else entry j v rest

unfoldable pub mark_completion_outcome : Bool → String → Workflow → Workflow
unfolding put pop
mark_completion_outcome applied reason w =
    let marked = put "_nexus_completion_applied" (boolean applied) w.metadata in
    record w {
      metadata =
          if is_empty reason
          then pop "_nexus_completion_reason" marked
          else put "_nexus_completion_reason" (text reason) marked;
    }

module _ (plugin : Plugin) (report : Report) (workflow_id : String) where
  open plugin use {engine, policy, show, parse, digest}
  open report use {outputs, event_id}

  abbrev pub completed_agent : Text
  completed_agent = normalize_ref (codes report.completed_agent_type)

  abbrev pub reported_step_id : Text
  reported_step_id = normalize_ref (ref_text show (get "step_id" outputs))

  abbrev pub reported_step_num : ℕ
  reported_step_num = step_num_of (get "step_num" outputs)

  -- The step that the report is about.
  unfoldable pub is_reported : Step → Bool
  is_reported s = refs_match reported_step_id (step_ref s) && s.step_num == reported_step_num

  unfoldable pub already_completed : Workflow → Bool
  already_completed w = elim (find_index is_reported w.steps) [
    | none ↦ false
    | some i ↦ elim (step_at w i) [
      | none ↦ false
      | some s ↦
          is_completed s.status
          && not (is_blank (agent_ref s))
          && refs_match completed_agent (agent_ref s)
    ]
  ]

  unfoldable pub report_key : Step → IdempotencyKey
  report_key s = record {
    issue_id = codes report.issue_number;
    step_num = s.step_num;
    agent_type = agent_ref s;
    event_id = codes event_id;
  }

  unfoldable pub seen_before : Step → Ledger → Bool
  seen_before s ledger = not (is_empty event_id) && is_duplicate digest (report_key s) ledger

  unfoldable pub stamped : Workflow → Step → Dict
  stamped w s = put "step_num" (number s.step_num) (
      put "step_id" (text s.name) (
        put "workflow_id" (text workflow_id) (normalize_completion_outputs parse show w s outputs)))

  -- The report agrees with the step.
  unfoldable pub agrees : Step → Bool
  agrees s = is_reported s && refs_match completed_agent (agent_ref s)

  module _ (now : ℕ) (writes : Bool) where
    unfoldable pub record_report : Step → Ledger → Ledger
    record_report s ledger =
        if is_empty event_id then ledger else record_key digest writes (report_key s) ledger

    -- The end of the method: the engine completes the step, and then the ledger notes the event.
    unfoldable pub apply_report : Workflow → Step → PluginState → Completion × PluginState
    apply_report w s state =
        elim (complete_step engine now workflow_id s.step_num (stamped w s) none state.world) [
          | raise e ↦ (failed_with (raised_by e), state)
          | ok w' world' ↦ (
            returned (mark_completion_outcome true "" w'),
            record { world = world'; ledger = record_report s state.ledger },
          )
        ]

    -- With the running step.
    unfoldable pub check_running : Workflow → Step → PluginState → Completion × PluginState
    check_running w s state =
        if is_blank (step_ref s) || s.step_num == 0
        then (failed_with step_schema, state)
        else if is_blank (agent_ref s)
        then (failed_with agent_missing, state)
        else if not (agrees s)
        then (failed_with mismatched, state)
        else if seen_before s state.ledger
        then (returned (mark_completion_outcome false "duplicate-event-noop" w), state)
        else apply_report w s state

    unfoldable pub find_running : Workflow → PluginState → Completion × PluginState
    find_running w state = elim (find_index (λ s. is_running s.status) w.steps) [
      | none ↦ (failed_with nothing_running, state)
      | some i ↦ elim (step_at w i) [
        | none ↦ (failed_with nothing_running, state)
        | some s ↦ check_running w s state
      ]
    ]

    -- With the loaded workflow, which was started.
    unfoldable pub accept : Workflow → PluginState → Completion × PluginState
    accept w state =
        if is_blank reported_step_id || reported_step_num == 0
        then (failed_with report_schema, state)
        else if already_completed w
        then (returned (mark_completion_outcome false "duplicate-step-noop" w), state)
        else find_running w state

    -- The workflow after a start. (The start saves it, so that the load finds it.)
    unfoldable pub accept_loaded : Option Workflow → PluginState → Completion × PluginState
    accept_loaded none state = (absent, state)
    accept_loaded (some w) state = accept w state

    unfoldable pub auto_start : Workflow → PluginState → Completion × PluginState
    auto_start w state = elim (start_workflow engine now workflow_id state.world) [
      | raise e ↦ (returned w, state)
      | ok _ world' ↦
          accept_loaded (get_workflow policy workflow_id world') (record state { world = world' })
    ]

    unfoldable pub complete_loaded : Option Workflow → PluginState → Completion × PluginState
    complete_loaded none state = (absent, state)
    complete_loaded (some w) state = elim w.state [
      | WorkflowState.pending ↦ auto_start w state
      | _ ↦ accept w state
    ]

    unfoldable pub complete_mapped : PluginState → Completion × PluginState
    complete_mapped state = complete_loaded (get_workflow policy workflow_id state.world) state

-- The workflow id of an issue, where there is one.
unfoldable pub resolve_workflow_id : Plugin → String → Option String
resolve_workflow_id plugin issue_number = elim (plugin.issue_to_workflow_id issue_number) [
  | none ↦ none
  | some id ↦ if is_empty id then none else some id
]

unfoldable pub complete_step_for_issue :
    Plugin → ℕ → Bool → Report → PluginState → Completion × PluginState
complete_step_for_issue plugin now writes report state =
    elim (resolve_workflow_id plugin report.issue_number) [
      | none ↦ (absent, state)
      | some id ↦ complete_mapped plugin report id now writes state
    ]

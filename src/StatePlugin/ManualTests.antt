-- ===== src/StatePlugin/ManualTests.antt =====
-- Creations, resets and the status at the sample workflow and at a loaded definition.
use nexus_arc.Base.{
  ℕ, ◌+◌, ◌<◌, ◌≡◌, refl, arith, String, Bool, true, false, not, ◌||◌, ◌==◌, none, some, [], ◌∷◌,
  map, codes, get_elem?, find_index, is_some, is_empty, str_eq, if◌then◌else◌,
}
use nexus_arc.Engine.Values.{dict}
use nexus_arc.Engine.Model.{Step, StepStatus, Workflow}
use nexus_arc.Engine.World.{load}
use nexus_arc.Engine.Samples.{sample, started_run, workflow_of}
use nexus_arc.Loader.Resolve.{resolve_workflow_steps_list}
use nexus_arc.Loader.Tests.{loader_program, definition, good, no_float}
use nexus_arc.StatePlugin.Completion.{PluginState, complete_step_for_issue}
use nexus_arc.StatePlugin.Creation.{
  Templates, CreationRequest, Creation, created, base_id, candidate, fresh_from,
  resolve_workflow_id_for_creation, creation_metadata, creation_overrides, load_definition,
  create_from, create_at, create_workflow_for_issue,
}
use nexus_arc.StatePlugin.Manual.{
  split_dash, join_dash, split_at, named_parts, infer_project_and_tier, rewind, rewound, reset_to,
  reset_found, try_start, recovery_request, recover_missing_workflow, reset_recovered, reset_mapped,
  reset_to_agent_for_issue, try_call, pause_workflow_for,
}
use nexus_arc.StatePlugin.Sound.{IsSound}
use nexus_arc.StatePlugin.Runs.{here, next, creates, reports, resets, PluginReach-IsSound}
use nexus_arc.StatePlugin.FreshIds.{resolve_workflow_id_for_creation_total}
use nexus_arc.StatePlugin.Forced.{create_workflow_for_issue-forced}
use nexus_arc.StatePlugin.Status.{
  reads_running, current_index, status_with, status_at, status_of, get_workflow_status, or_unknown,
  status_of_lem,
}
use nexus_arc.StatePlugin.Tests.{
  plugin_program, plugin, report, start_state, running_state, created_world-IsSound,
}

manual_program : Unit {0}
unfolding plugin_program loader_program base_id candidate fresh_from
    resolve_workflow_id_for_creation creation_metadata creation_overrides load_definition
    create_from create_at create_workflow_for_issue split_dash join_dash split_at named_parts
    infer_project_and_tier rewind rewound reset_to reset_found try_start recovery_request
    recover_missing_workflow reset_recovered reset_mapped reset_to_agent_for_issue try_call
    pause_workflow_for reads_running current_index status_with status_at status_of
    get_workflow_status
manual_program = tt

abbrev templates : Templates
templates = record {
  workflow_definition_path = λ project. some "flow.yaml";
  read_yaml = λ path. if str_eq path "flow.yaml" then some (dict (definition good)) else none;
  resolve_steps = resolve_workflow_steps_list [];
  float_ms = no_float;
  issue_url = λ issue. none;
  default_task_type = "feature";
}

abbrev request : Bool → CreationRequest
request force = record {
  issue_number = "42";
  issue_title = "Demo";
  project_name = "nexus-arc";
  tier_name = "Full";
  task_type = "feature";
  description = "";
  force_new_instance = force;
}

made : Creation × PluginState
made = create_workflow_for_issue plugin templates 5 (request true) start_state

made_id : made.0 ≡ created "nexus-arc-42-Full-r1"
unfolding made manual_program
made_id = refl

infer_test :
    infer_project_and_tier (codes "nexus-arc-42-full-x") (codes "42")
    ≡ some (codes "nexus-arc", codes "full-x")
unfolding manual_program
infer_test = refl

-- The third step is made the running one.
reset_statuses :
    (elim (load "wf"
      (reset_to_agent_for_issue plugin templates 9 "42"
        (codes "@Ship")
        running_state).1.world.store) [ none ↦ [] | some w ↦ map (λ s. s.status) w.steps ])
    ≡ StepStatus.completed ∷ StepStatus.completed ∷ StepStatus.running ∷ []
unfolding manual_program
reset_statuses = refl

history : PluginState
history =
    let first = (create_workflow_for_issue plugin templates 5 (request true) start_state).1 in
    let second = (complete_step_for_issue plugin 6 true (report "plan" "plan" 1) first).1 in
    (reset_to_agent_for_issue plugin templates 9 "42" (codes "@Ship") second).1

PluginReach-IsSound_example : IsSound 5 history.world.store
unfolding history
PluginReach-IsSound_example =
    PluginReach-IsSound plugin templates
      (next
        (next (next here (creates 5 (request true) start_state))
          (reports 6 true (report "plan" "plan" 1) _))
        (resets 9 "42" (codes "@Ship") _))
      created_world-IsSound

resolve_workflow_id_for_creation_total_example :
    (id : String) × (resolve_workflow_id_for_creation (request true) made.1.world.store ≡ some id)
    × (load id made.1.world.store ≡ none)
    × (is_empty id ≡ false)
resolve_workflow_id_for_creation_total_example =
    resolve_workflow_id_for_creation_total (request true) made.1.world.store refl

abbrev kept : Workflow
kept = workflow_of started_run

create_workflow_for_issue-forced_example :
    load "wf"
      (create_workflow_for_issue plugin templates 5 (request true) running_state).1.world.store
    ≡ some kept
unfolding manual_program
create_workflow_for_issue-forced_example =
    create_workflow_for_issue-forced plugin templates 5 (request true) running_state "wf" kept refl
      refl

status_of_lem_example :
    (i : ℕ) × (s : Step) × (get_elem? kept.steps i ≡ some s)
    × ((status_of kept).current_step ≡ i + 1)
    × (i < (status_of kept).total_steps)
    × ((status_of kept).current_step_num ≡ s.step_num)
    × ((status_of kept).current_step_id ≡ s.name)
    × ((status_of kept).current_agent_type ≡ or_unknown s.agent.name)
    × ((not (is_some (find_index (λ x. x.step_num == kept.current_step) kept.steps))
          || s.step_num == kept.current_step)
        ≡ true)
unfolding manual_program
status_of_lem_example = status_of_lem kept (omega arith)

abbrev lost : Workflow
lost = record sample { current_step = 7 }

lost_status : (status_of lost).current_step ≡ 1
unfolding manual_program
lost_status = refl

-- ===== src/StatePlugin/Tests.antt =====
-- Reports on the sample workflow of Engine/Samples.
use nexus_arc.Base.{
  ℕ, ◌≡◌, refl, arith, String, true, false, Option, none, some, List, [], ◌∷◌, map, str_eq, codes,
  if◌then◌else◌, decimal, decimal_from,
}
use nexus_arc.Engine.Serde.{written}
use nexus_arc.Engine.Values.{text, number, empty, entry, get}
use nexus_arc.Engine.Model.{Step, StepStatus, Workflow}
use nexus_arc.Engine.World.{load}
use nexus_arc.Engine.Samples.{
  engine, policy, sample, created_world, started_run, world_of, empty_world,
}
use nexus_arc.Engine.Tests.{program, empty_world-IsValid, sample-IsFresh}
use nexus_arc.IdempotencyLedger.{
  missing, raw_key, to_set, text_le, insert, sorted, save, as_string, is_duplicate, record_key,
}
use nexus_arc.StatePlugin.Refs.{
  normalize_ref, refs_match, step_ref, agent_ref, answers_to, match_step_by_ref, route_target_ref,
  ref_text, digits_value, step_num_of,
}
use nexus_arc.StatePlugin.Outputs.{
  infer_simple_condition_assignment, points_to, assign_condition, assign_route,
  normalize_completion_outputs, Node, eq, compare, name, constant,
}
use nexus_arc.StatePlugin.Completion.{
  Plugin, PluginState, Report, Completion, returned, failed_with, complete_step_for_issue,
  mismatched, pop, mark_completion_outcome, is_reported, already_completed, report_key, seen_before,
  stamped, agrees, record_report, apply_report, check_running, find_running, accept, accept_loaded,
  auto_start, complete_loaded, complete_mapped, resolve_workflow_id,
}
use nexus_arc.StatePlugin.Numbered.{InOrder-IsNumbered}
use nexus_arc.Engine.World.{World}
use nexus_arc.Engine.Model.{step_at}
use nexus_arc.Engine.Gates.{apply_approval_gates}
use nexus_arc.Engine.Control.{ok, create_workflow}
use nexus_arc.Engine.Calls.{start, complete, perform}
use nexus_arc.Engine.Samples.{plan, workflow_of}
use nexus_arc.StatePlugin.Cases.{is_engine_raised}
use nexus_arc.StatePlugin.Reported.{complete_step_for_issue-IsSound}
use nexus_arc.StatePlugin.Redelivery.{complete_step_for_issue_twice}
use nexus_arc.StatePlugin.Refused.{auto_started, complete_step_for_issue-refused}
use nexus_arc.StatePlugin.Delivered.{complete_step_for_issue-applies}
use nexus_arc.StatePlugin.Sound.{IsSound, create-IsSound, perform-IsSound}

-- "approved" is read as `approved == "yes"`.
abbrev toy_parse : String → Option Node
toy_parse condition =
    if str_eq condition "approved"
    then some (compare (name "approved") (eq ∷ []) (constant (text "yes") ∷ []))
    else none

abbrev pub plugin : Plugin
plugin = record {
  engine = engine;
  policy = policy;
  issue_to_workflow_id = λ issue. if str_eq issue "42" then some "wf" else none;
  parse = toy_parse;
  show = λ v. codes "[...]";
  digest = λ t. t;
}

abbrev pub report : String → String → ℕ → Report
report agent step num = record {
  issue_number = "42";
  completed_agent_type = agent;
  outputs =
      entry "step_id" (text step)
        (entry "step_num" (number num) (entry "next_agent" (text "@Ship") empty));
  event_id = "comment:7";
}

abbrev pub start_state : PluginState
start_state = record { world = created_world; ledger = record { seen = []; file = missing } }

unfoldable pub plugin_program : Unit {0}
unfolding program normalize_ref refs_match step_ref agent_ref answers_to match_step_by_ref
    route_target_ref ref_text digits_value step_num_of infer_simple_condition_assignment points_to
    assign_condition assign_route normalize_completion_outputs pop mark_completion_outcome
    is_reported already_completed report_key seen_before stamped agrees record_report apply_report
    check_running find_running accept accept_loaded auto_start complete_loaded complete_mapped
    resolve_workflow_id complete_step_for_issue raw_key decimal decimal_from to_set text_le insert
    sorted save as_string is_duplicate record_key created_world
plugin_program = tt

pub created_world-IsSound : IsSound 5 created_world.store
unfolding created_world load
created_world-IsSound =
    create-IsSound engine policy 1 sample empty_world sample-IsFresh
      (InOrder-IsNumbered 1 sample (refl, (refl, (refl, tt))))
      (record { valid = empty_world-IsValid; numbered = λ k w e. absurd (ground (arith, e)) })

-- The report of the planning step starts the pending workflow, and the route to "ship" is taken.
planned : Completion × PluginState
planned = complete_step_for_issue plugin 3 true (report " @Plan " "plan" 1) start_state

statuses_of : Completion → List StepStatus
statuses_of (returned w) = map (λ s. s.status) w.steps
statuses_of _ = []

planned_statuses :
    statuses_of planned.0 ≡ StepStatus.completed ∷ StepStatus.skipped ∷ StepStatus.running ∷ []
unfolding planned plugin_program statuses_of
planned_statuses = refl

planned_seen : planned.1.ledger.seen ≡ codes "42:1:plan:comment:7" ∷ []
unfolding planned plugin_program
planned_seen = refl

-- The variable of the condition is set in the outputs of the step.
planned_outputs :
    (elim planned.0 [ returned w ↦ map (λ s. get "approved" s.outputs) w.steps | _ ↦ [] ])
    ≡ some (text "yes") ∷ none ∷ none ∷ []
unfolding planned plugin_program
planned_outputs = refl

wrong_agent :
    (complete_step_for_issue plugin 3 true (report "review" "plan" 1) start_state).0
    ≡ failed_with mismatched
unfolding plugin_program
wrong_agent = refl

int_tests :
    map (λ s. step_num_of (some (text s))) (" +1_2 " ∷ "-3" ∷ "1__2" ∷ "7x" ∷ [])
    ≡ 12 ∷ 0 ∷ 0 ∷ 0 ∷ []
unfolding plugin_program
int_tests = refl

planned-IsSound : IsSound 5 planned.1.world.store
unfolding planned
planned-IsSound =
    complete_step_for_issue-IsSound plugin 3 true (report " @Plan " "plan" 1) start_state
      created_world-IsSound

complete_step_for_issue_twice_example :
    (complete_step_for_issue plugin 8 false (report " @Plan " "plan" 1) planned.1).1 ≡ planned.1
unfolding planned
complete_step_for_issue_twice_example =
    complete_step_for_issue_twice plugin 3 8 true false (report " @Plan " "plan" 1) start_state
      created_world-IsSound refl

abbrev created_workflow : Workflow
created_workflow = written (create_workflow policy 1 sample empty_world).0

abbrev wrong : Report
wrong = report "review" "plan" 1

complete_step_for_issue-refused_example :
    ((complete_step_for_issue plugin 3 true wrong start_state).1
      ≡ record start_state { world = auto_started plugin 3 "wf" created_workflow created_world })
    × (is_engine_raised (failed_with mismatched) ≡ false)
unfolding plugin_program
complete_step_for_issue-refused_example =
    complete_step_for_issue-refused plugin 3 true wrong start_state "wf" created_workflow mismatched
      created_world-IsSound refl refl wrong_agent

abbrev pub running_state : PluginState
running_state = record {
  world = world_of started_run;
  ledger = record { seen = []; file = missing };
}

start_ok :
    perform engine 2 "wf" start created_world ≡ ok (workflow_of started_run) (world_of started_run)
unfolding program
start_ok = refl

pub started-IsSound : IsSound 5 (world_of started_run).store
started-IsSound =
    perform-IsSound engine 2 "wf" start created_world tt start_ok created_world-IsSound

abbrev shown : Workflow
shown = apply_approval_gates policy (workflow_of started_run)

running_step : Step
running_step = elim (step_at shown 0) [ none ↦ plan | some s ↦ s ]

complete_step_for_issue-applies_example :
    (u : Workflow) × (world' : World) × (perform engine 3 "wf"
        (complete 1 (stamped plugin (report "plan" "plan" 1) "wf" shown running_step) none)
        (world_of started_run)
      ≡ ok u world')
    × (complete_step_for_issue plugin 3 true (report "plan" "plan" 1) running_state ≡ (
      returned (mark_completion_outcome true "" u),
      record {
        world = world';
        ledger =
            record_report plugin
              (report "plan" "plan" 1)
              "wf"
              3
              true
              running_step
              running_state.ledger;
      },
    ))
unfolding plugin_program running_step
complete_step_for_issue-applies_example =
    complete_step_for_issue-applies plugin 3 true (report "plan" "plan" 1) running_state "wf"
      (workflow_of started_run) 0 running_step started-IsSound refl refl (λ e. cc) refl refl
      (record { named_id = refl; named_num = refl; named_agent = refl })
      (record { numbered = omega arith; step_named = refl; agent_named = refl }) refl

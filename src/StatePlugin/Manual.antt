-- ===== src/StatePlugin/Manual.antt =====
-- The manual operations: `reset_to_agent_for_issue` with `_recover_missing_workflow`, and
-- `start_workflow`, `pause_workflow` and `resume_workflow`.
use nexus_arc.Base.{
  ℕ, String, Bool, true, false, not, ◌||◌, ◌==◌, Option, none, some, List, [], ◌∷◌, ◌++◌, keep, map,
  ltb, is_some, codes, code_eq, strip, if◌then◌else◌,
}
use nexus_arc.Engine.Values.{empty}
use nexus_arc.Engine.Model.{Step, StepStatus, Workflow, WorkflowState, step_at}
use nexus_arc.Engine.World.{World, save_workflow}
use nexus_arc.Engine.Control.{ok, raise, start_workflow, get_workflow}
use nexus_arc.Engine.Calls.{Call, start, pause, resume, perform}
use nexus_arc.Loader.Fields.{text_of}
use nexus_arc.StatePlugin.Refs.{Text, is_blank, match_step_by_ref}
use nexus_arc.StatePlugin.Completion.{Plugin, PluginState, resolve_workflow_id}
use nexus_arc.StatePlugin.Creation.{
  Templates, CreationRequest, Creation, not_created, created, load_failed,
  create_workflow_for_issue,
}

-- `text.split("-")`, with the part that is being read in reverse order.
unfoldable pub split_dash : Text → List Text
split_dash [] = [] ∷ []
split_dash (c ∷ cs) = elim (split_dash cs) [
  | [] ↦ (c ∷ []) ∷ []
  | p ∷ ps ↦ if c == b'-' then [] ∷ p ∷ ps else (c ∷ p) ∷ ps
]

-- `"-".join(parts)`
unfoldable pub join_dash : List Text → Text
join_dash [] = []
join_dash (p ∷ []) = p
join_dash (p ∷ q ∷ ps) = p ++ b'-' ∷ join_dash (q ∷ ps)

-- The parts before and after the first one that is the key.
unfoldable pub split_at : Text → List Text → Option (List Text × List Text)
split_at key [] = none
split_at key (p ∷ ps) = elim (split_at key ps) [
  | none ↦ if code_eq p key then some ([], ps) else none
  | some (before, after) ↦ if code_eq p key then some ([], ps) else some (p ∷ before, after)
]

unfoldable pub named_parts : Option (List Text × List Text) → Option (Text × Text)
unfolding join_dash
named_parts none = none
named_parts (some (before, after)) =
    let project = strip (join_dash before) in
    let tier = strip (join_dash after) in
    if is_blank project || is_blank tier then none else some (project, tier)

abbrev at_least_3 : List Text → Bool
at_least_3 (_ ∷ _ ∷ _ ∷ _) = true
at_least_3 _ = false

-- The ids `project-<issue>-<tier>`.
unfoldable pub infer_project_and_tier : Text → Text → Option (Text × Text)
unfolding split_dash split_at named_parts
infer_project_and_tier workflow_id issue_number =
    let issue_key = strip issue_number in
    let parts = keep (λ p. not (is_blank p)) (split_dash (strip workflow_id)) in
    if is_blank issue_key || not (at_least_3 parts)
    then none
    else named_parts (split_at issue_key parts)

module _ (now target : ℕ) where
  -- The loop of `reset_to_agent_for_issue` over the steps.
  unfoldable pub rewind : Step → Step
  rewind s =
      if ltb s.step_num target
      then record s {
        status = StepStatus.completed;
        completed_at = if is_some s.completed_at then s.completed_at else some now;
      }
      else if s.step_num == target
      then record s {
        status = StepStatus.running;
        started_at = some now;
        completed_at = none;
        error = none;
        iteration = 0;
      }
      else record s {
        status = StepStatus.pending;
        started_at = none;
        completed_at = none;
        error = none;
        outputs = empty;
        retry_count = 0;
        iteration = 0;
      }

  unfoldable pub rewound : Workflow → Workflow
  unfolding rewind
  rewound w = record w {
    steps = map rewind w.steps;
    state = WorkflowState.running;
    current_step = target;
    completed_at = none;
    updated_at = now;
  }

module _ (plugin : Plugin) (templates : Templates) (now : ℕ) where
  open plugin use {engine, policy}

  unfoldable pub reset_to : Workflow → Option ℕ → PluginState → Bool × PluginState
  unfolding rewound
  reset_to w none state = (false, state)
  reset_to w (some i) state = elim (step_at w i) [
    | none ↦ (false, state)
    | some s ↦ (true, record state { world = save_workflow (rewound now s.step_num w) state.world })
  ]

  unfoldable pub reset_found : Text → Option Workflow → PluginState → Bool × PluginState
  unfolding reset_to match_step_by_ref
  reset_found agent_ref none state = (false, state)
  reset_found agent_ref (some w) state = reset_to w (match_step_by_ref w agent_ref) state

  -- A start whose failure is only logged.
  unfoldable pub try_start : String → World → World
  try_start id world = elim (start_workflow engine now id world) [
    | raise e ↦ world
    | ok w world' ↦ world'
  ]

  -- The workflow of a missing row is created again from its definition, if its id tells which.
  unfoldable pub recovery_request : String → Text × Text → CreationRequest
  unfolding text_of
  recovery_request issue_number (project, tier) = record {
    issue_number = issue_number;
    issue_title = text_of (codes "issue-" ++ codes issue_number);
    project_name = text_of project;
    tier_name = text_of tier;
    task_type = templates.default_task_type;
    description = text_of (codes "Recovered workflow for issue #" ++ codes issue_number);
    force_new_instance = false;
  }

  unfoldable pub recover_missing_workflow :
      String → String → PluginState → Option Creation × PluginState
  unfolding infer_project_and_tier recovery_request create_workflow_for_issue try_start
  recover_missing_workflow issue_number id state =
      elim (infer_project_and_tier (codes id) (codes issue_number)) [
        | none ↦ (none, state)
        | some names ↦
            let (creation, state') =
              create_workflow_for_issue plugin templates now (recovery_request issue_number names)
                state in
            (
              some creation,
              elim creation [
                | created new_id ↦ record state' { world = try_start new_id state'.world }
                | _ ↦ state'
              ],
            )
      ]

  -- After a recovery. What the loader raises goes through, here as none.
  unfoldable pub reset_recovered :
      Text → String → Option Creation × PluginState → Option Bool × PluginState
  unfolding reset_found get_workflow
  reset_recovered agent_ref id (none, state) = (some false, state)
  reset_recovered agent_ref id (some not_created, state) = (some false, state)
  reset_recovered agent_ref id (some (load_failed e), state) = (none, state)
  reset_recovered agent_ref id (some (created new_id), state) =
      let (done, state') = reset_found agent_ref (get_workflow policy id state.world) state in
      (some done, state')

  unfoldable pub reset_mapped : String → Text → String → PluginState → Option Bool × PluginState
  unfolding reset_found reset_recovered recover_missing_workflow get_workflow
  reset_mapped issue_number agent_ref id state = elim (get_workflow policy id state.world) [
    | none ↦ reset_recovered agent_ref id (recover_missing_workflow issue_number id state)
    | some w ↦ let (done, state') = reset_found agent_ref (some w) state in (some done, state')
  ]

  unfoldable pub reset_to_agent_for_issue : String → Text → PluginState → Option Bool × PluginState
  unfolding reset_mapped resolve_workflow_id
  reset_to_agent_for_issue issue_number agent_ref state =
      elim (resolve_workflow_id plugin issue_number) [
        | none ↦ (some false, state)
        | some id ↦ reset_mapped issue_number agent_ref id state
      ]

module _ (plugin : Plugin) (now : ℕ) where
  -- A call of the engine whose error is logged and answered by False.
  unfoldable pub try_call : String → Call → PluginState → Bool × PluginState
  unfolding perform
  try_call id call state = elim (perform plugin.engine now id call state.world) [
    | raise e ↦ (false, state)
    | ok w world' ↦ (true, record state { world = world' })
  ]

  unfoldable pub start_workflow_of : String → PluginState → Bool × PluginState
  start_workflow_of id state = try_call id start state

  abbrev pub on_issue : String → Call → PluginState → Bool × PluginState
  on_issue issue_number call state = elim (resolve_workflow_id plugin issue_number) [
    | none ↦ (false, state)
    | some id ↦ try_call id call state
  ]

  unfoldable pub pause_workflow_for : String → PluginState → Bool × PluginState
  unfolding try_call
  pause_workflow_for issue_number state = on_issue issue_number pause state

  unfoldable pub resume_workflow_for : String → PluginState → Bool × PluginState
  unfolding try_call
  resume_workflow_for issue_number state = on_issue issue_number resume state

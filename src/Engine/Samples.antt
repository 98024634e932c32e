-- ===== src/Engine/Samples.antt =====
-- A small workflow (a planning step, a router and a final step) and the worlds that calls lead it
-- through.
use nexus_arc.Base.{
  ℕ, String, Bool, true, false, Option, none, some, List, [], ◌∷◌, str_eq, if◌then◌else◌,
}
use nexus_arc.Engine.Values.{empty}
use nexus_arc.Engine.Model.{Agent, Step, StepStatus, Route, off, on, Workflow, WorkflowState}
use nexus_arc.Engine.Gates.{Policy}
use nexus_arc.Engine.Routing.{Eval}
use nexus_arc.Engine.World.{Engine, World}
use nexus_arc.Engine.Control.{Result, ok, raise, create_workflow}
use nexus_arc.Engine.Calls.{start, cancel, complete, perform}

-- The condition "approved" holds, "1/0" raises, and no other holds.
abbrev pub sample_eval : Eval
sample_eval condition context =
    if str_eq condition "approved"
    then some true
    else (if str_eq condition "1/0" then none else some false)

abbrev pub engine : Engine
engine = record {
  max_loop_iterations = 5;
  default_backoff_base = 1000;
  eval = sample_eval;
  event_bus = true;
  on_step_transition = true;
  on_workflow_complete = true;
}

abbrev pub policy : Policy
policy = record { strict_approvals = false; merge_message = "merge"; human_message = "human" }

abbrev agent : String → Agent
agent name = record {
  name = name;
  display_name = name;
  description = "";
  provider_preference = none;
  timeout = 600;
  max_retries = 2;
  allowed_tools = [];
}

abbrev pub step : ℕ → String → Bool → List Route → Step
step num name final routes = record {
  step_num = num;
  name = name;
  agent = agent name;
  prompt_template = "";
  condition = none;
  timeout = none;
  retry = none;
  backoff_strategy = none;
  initial_delay = 0;
  inputs = empty;
  outputs = empty;
  status = StepStatus.pending;
  started_at = none;
  completed_at = none;
  error = none;
  retry_count = 0;
  require_human_approval = final;
  approval_gates = [];
  routes = routes;
  on_success = none;
  final_step = final;
  iteration = 0;
  parallel_with = [];
}

abbrev pub route : Option String → Option String → Route
route when goto = record { when = when; goto = goto; then_goto = none; default = off }

abbrev pub default_route : String → Route
default_route goto = record { when = none; goto = some goto; then_goto = none; default = on }

-- The second route is not reached: its condition is not looked at after "approved".
abbrev pub review_routes : List Route
review_routes =
    route (some "1/0") (some "plan")
    ∷ default_route "plan"
    ∷ route (some "approved") (some "ship")
    ∷ []

abbrev pub plan : Step
plan = step 1 "plan" false []

abbrev pub review : Step
review = step 2 "review" false review_routes

abbrev pub ship : Step
ship = step 3 "ship" true []

abbrev pub sample : Workflow
sample = record {
  id = "wf";
  name = "sample";
  version = "1.0";
  description = "";
  steps = plan ∷ review ∷ ship ∷ [];
  state = WorkflowState.pending;
  current_step = 0;
  created_at = 0;
  updated_at = 0;
  completed_at = none;
  metadata = empty;
  require_human_merge_approval = true;
  require_approval_for = "step_1" ∷ [];
}

abbrev pub empty_world : World
empty_world = record { store = []; trace = [] }

abbrev pub workflow_of : Result → Workflow
workflow_of (ok w world) = w
workflow_of (raise e) = sample

abbrev pub world_of : Result → World
world_of (ok w world) = world
world_of (raise e) = empty_world

unfoldable pub created_world : World
created_world = (create_workflow policy 1 sample empty_world).1

unfoldable pub started_run : Result
started_run = perform engine 2 "wf" start created_world

unfoldable pub planned_run : Result
planned_run = perform engine 3 "wf" (complete 1 empty none) (world_of started_run)

unfoldable pub cancelled_run : Result
cancelled_run = perform engine 3 "wf" cancel (world_of started_run)

unfoldable pub shipped_run : Result
shipped_run = perform engine 4 "wf" (complete 3 empty none) (world_of planned_run)

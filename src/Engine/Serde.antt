-- ===== src/Engine/Serde.antt =====
-- nexus/adapters/storage/_workflow_serde.py, by which the file and the database backend write and read a
-- workflow: the dictionaries as records, with the keys that are written. A datetime comes back
-- from its text as it was, and so does a value of an enumeration.
use nexus_arc.Base.{ℕ, String, Bool, false, Option, none, List, [], map}
use nexus_arc.Engine.Values.{Dict}
use nexus_arc.Engine.Model.{Route, Step, StepStatus, Workflow, WorkflowState}

pub record AgentDict : Type 0 where
  pub name : String
  pub display_name : String
  pub description : String
  pub provider_preference : Option String
  pub timeout : ℕ
  pub max_retries : ℕ

pub record StepDict : Type 0 where
  pub step_num : ℕ
  pub name : String
  pub agent : AgentDict
  pub prompt_template : String
  pub condition : Option String
  pub timeout : Option ℕ
  pub retry : Option ℕ
  pub inputs : Dict
  pub outputs : Dict
  pub status : StepStatus
  pub started_at : Option ℕ
  pub completed_at : Option ℕ
  pub error : Option String
  pub routes : List Route
  pub on_success : Option String
  pub final_step : Bool
  pub iteration : ℕ

pub record WorkflowDict : Type 0 where
  pub id : String
  pub name : String
  pub version : String
  pub description : String
  pub state : WorkflowState
  pub current_step : ℕ
  pub created_at : ℕ
  pub updated_at : ℕ
  pub completed_at : Option ℕ
  pub metadata : Dict
  pub steps : List StepDict

abbrev pub step_to_dict : Step → StepDict
step_to_dict s = record {
  step_num = s.step_num;
  name = s.name;
  agent = record {
    name = s.agent.name;
    display_name = s.agent.display_name;
    description = s.agent.description;
    provider_preference = s.agent.provider_preference;
    timeout = s.agent.timeout;
    max_retries = s.agent.max_retries;
  };
  prompt_template = s.prompt_template;
  condition = s.condition;
  timeout = s.timeout;
  retry = s.retry;
  inputs = s.inputs;
  outputs = s.outputs;
  status = s.status;
  started_at = s.started_at;
  completed_at = s.completed_at;
  error = s.error;
  routes = s.routes;
  on_success = s.on_success;
  final_step = s.final_step;
  iteration = s.iteration;
}

abbrev pub workflow_to_dict : Workflow → WorkflowDict
workflow_to_dict w = record {
  id = w.id;
  name = w.name;
  version = w.version;
  description = w.description;
  state = w.state;
  current_step = w.current_step;
  created_at = w.created_at;
  updated_at = w.updated_at;
  completed_at = w.completed_at;
  metadata = w.metadata;
  steps = map step_to_dict w.steps;
}

-- What has no key gets the default of the data class.
abbrev pub dict_to_step : StepDict → Step
dict_to_step d = record {
  step_num = d.step_num;
  name = d.name;
  agent = record {
    name = d.agent.name;
    display_name = d.agent.display_name;
    description = d.agent.description;
    provider_preference = d.agent.provider_preference;
    timeout = d.agent.timeout;
    max_retries = d.agent.max_retries;
    allowed_tools = [];
  };
  prompt_template = d.prompt_template;
  condition = d.condition;
  timeout = d.timeout;
  retry = d.retry;
  backoff_strategy = none;
  initial_delay = 0;
  inputs = d.inputs;
  outputs = d.outputs;
  status = d.status;
  started_at = d.started_at;
  completed_at = d.completed_at;
  error = d.error;
  retry_count = 0;
  require_human_approval = false;
  approval_gates = [];
  routes = d.routes;
  on_success = d.on_success;
  final_step = d.final_step;
  iteration = d.iteration;
  parallel_with = [];
}

abbrev pub dict_to_workflow : WorkflowDict → Workflow
dict_to_workflow d = record {
  id = d.id;
  name = d.name;
  version = d.version;
  description = d.description;
  steps = map dict_to_step d.steps;
  state = d.state;
  current_step = d.current_step;
  created_at = d.created_at;
  updated_at = d.updated_at;
  completed_at = d.completed_at;
  metadata = d.metadata;
  require_human_merge_approval = false;
  require_approval_for = [];
}

-- A step and a workflow, written and read again.
abbrev pub written_step : Step → Step
written_step s = dict_to_step (step_to_dict s)

abbrev pub written : Workflow → Workflow
written w = dict_to_workflow (workflow_to_dict w)

-- ===== src/Engine/Model.antt =====
-- nexus/core/models.py: the data of a workflow, with the source's fields. A datetime is the number
-- of ticks of the clock; a delay in seconds (a float) is a number of milliseconds.
use Prim.Native.Nat.{ℕ, ◌+◌}
use nexus_arc.Base.{
  String, Bool, true, false, Option, none, some, List, find_index, get_elem?, ◌==◌,
}
use nexus_arc.Engine.Values.{Dict}

pub data WorkflowState : Type 0 where
  pending running paused completed failed cancelled : WorkflowState

pub data StepStatus : Type 0 where
  pending running completed failed skipped : StepStatus

pub data GateType : Type 0 where
  pr_merge deployment data_access custom : GateType

pub record Gate : Type 0 where
  pub gate_type : GateType
  pub required : Bool
  pub tool_restrictions : List String
  pub approval_message : Option String
  pub metadata : Dict

pub record Agent : Type 0 where
  pub name : String
  pub display_name : String
  pub description : String
  pub provider_preference : Option String
  pub timeout : ℕ
  pub max_retries : ℕ
  pub allowed_tools : List String

-- The value under `default` of a route: absent or false, true, or the name of a step.
pub data RouteDefault : Type 0 where
  off : RouteDefault
  on : RouteDefault
  named : String → RouteDefault

-- An entry of `routes`. `then_goto` is the value under `then`.
pub record Route : Type 0 where
  pub when : Option String
  pub goto : Option String
  pub then_goto : Option String
  pub default : RouteDefault

pub record Step : Type 0 where
  pub step_num : ℕ
  pub name : String
  pub agent : Agent
  pub prompt_template : String
  pub condition : Option String
  pub timeout : Option ℕ
  pub retry : Option ℕ
  pub backoff_strategy : Option String
  pub initial_delay : ℕ
  pub inputs : Dict
  pub outputs : Dict
  pub status : StepStatus
  pub started_at : Option ℕ
  pub completed_at : Option ℕ
  pub error : Option String
  pub retry_count : ℕ
  pub require_human_approval : Bool
  pub approval_gates : List Gate
  pub routes : List Route
  pub on_success : Option String
  pub final_step : Bool
  pub iteration : ℕ
  pub parallel_with : List String

pub record Workflow : Type 0 where
  pub id : String
  pub name : String
  pub version : String
  pub description : String
  pub steps : List Step
  pub state : WorkflowState
  pub current_step : ℕ
  pub created_at : ℕ
  pub updated_at : ℕ
  pub completed_at : Option ℕ
  pub metadata : Dict
  pub require_human_merge_approval : Bool
  pub require_approval_for : List String

-- `status == …` on the enumeration members.
abbrev pub is_pending : StepStatus → Bool
is_pending StepStatus.pending = true
is_pending _ = false

abbrev pub is_running : StepStatus → Bool
is_running StepStatus.running = true
is_running _ = false

abbrev pub is_completed : StepStatus → Bool
is_completed StepStatus.completed = true
is_completed _ = false

-- A step object is its index in `steps`: a change through any reference to it is seen through all.
-- `get_step` finds the first step with the number.
unfoldable pub get_step : Workflow → ℕ → Option ℕ
get_step w num = find_index (λ s. s.step_num == num) w.steps

unfoldable pub get_next_step : Workflow → Option ℕ
unfolding get_step
get_next_step w = get_step w (w.current_step + 1)

unfoldable pub is_complete : Workflow → Bool
is_complete w = elim w.state [
  | WorkflowState.completed ↦ true
  | WorkflowState.failed ↦ true
  | WorkflowState.cancelled ↦ true
  | _ ↦ false
]

abbrev pub step_at : Workflow → ℕ → Option Step
step_at w i = get_elem? w.steps i

-- The agent of the current step, if that step is running.
unfoldable pub active_agent_type : Workflow → Option String
unfolding get_step
active_agent_type w = elim (get_step w w.current_step) [
  | none ↦ none
  | some i ↦ elim (step_at w i) [
    | none ↦ none
    | some s ↦ elim s.status [ StepStatus.running ↦ some s.agent.name | _ ↦ none ]
  ]
]

-- ===== src/Loader/Build.antt =====
-- `build_workflow_steps`, `parse_require_human_merge_approval`, `parse_require_approval_for` and
-- `WorkflowDefinition.from_dict`. `float_ms` is Python's `float` in milliseconds, none if it raises.
-- The dates of a new workflow are `now`.
use nexus_arc.Base.{
  ℕ, suc, String, Bool, true, false, not, ◌&&◌, ◌||◌, any, truthy, Option, none, some, List, [],
  ◌∷◌, ◌++◌, map, keep, codes, lower, strip, decimal, mem_text, is_empty, is_some, if◌then◌else◌,
}
use nexus_arc.Engine.Values.{Value, text, dict, Dict, empty, get, put, update}
use nexus_arc.Engine.Model.{Agent, Step, StepStatus, Workflow, WorkflowState}
use nexus_arc.Engine.Gates.{Policy, apply_approval_gates}
use nexus_arc.Loader.Fields.{
  text_of, slug, is_true, number_in, text_at, or_else, text_else, list_in, dict_in, texts, dicts,
  route_in, merge,
}

-- The ValueErrors of the loader, and the AttributeError of `slugify` for a value that is no text.
pub data LoadError : Type 0 where
  step_not_dict : ℕ → LoadError
  not_a_dict no_id no_steps no_attribute : LoadError

pub data Loaded {ℓ} (A : Type ℓ) : Type ℓ where
  loaded : A → Loaded A
  invalid : LoadError → Loaded A

abbrev pub is_text : Value → Bool
is_text (text _) = true
is_text _ = false

-- A value that counts as true and is no text.
abbrev pub no_text : Option Value → Bool
no_text (some (text _)) = false
no_text v = is_true v

-- `d.get("id") or d.get("name")`, but for the number of the step.
abbrev pub name_value : Dict → Option Value
name_value d =
    let name : Option Value = if is_true (get "name" d) then get "name" d else none in
    if is_true (get "id" d) then get "id" d else name

-- `slugify` raises for an entry of `parallel`, or for the name of the step.
unfoldable pub slug_raises : Dict → Bool
unfolding list_in get is_true
slug_raises d =
    any (λ v. not (is_text v)) (or_else (list_in (get "parallel" d)) []) || no_text (name_value d)

-- `slugify(name) or name`
unfoldable pub slug_name : String → String
unfolding slug
slug_name name = if is_empty (slug name) then name else slug name

-- `f"step_{idx}"` and `f"Step {idx}"`
unfoldable pub numbered_name : String → ℕ → String
unfolding text_of decimal
numbered_name head idx = text_of (codes head ++ decimal idx)

unfoldable pub step_name : ℕ → Dict → String
unfolding numbered_name text_at
step_name idx d =
    text_else (text_at "id" d) (text_else (text_at "name" d) (numbered_name "step_" idx))

abbrev pub add_comment : String
add_comment = "vcs:add_comment"

-- The tools that a step may use, by the list of the workflow, if it has one.
unfoldable pub combined_tools : Dict → Dict → List String
unfolding get list_in texts mem_text
combined_tools data' d =
    let step_tools = texts (or_else (list_in (get "tools" d)) []) in
    let allowed : List String = elim (list_in (get "allowed_tools" data')) [
      | none ↦ step_tools
      | some vs ↦ keep (λ t. mem_text t (texts vs)) step_tools
    ] in
    if mem_text add_comment allowed then allowed else allowed ++ add_comment ∷ []

unfoldable pub build_agent : Dict → ℕ → Dict → Agent
unfolding combined_tools text_at numbered_name number_in get
build_agent data' idx d =
    let agent_type = or_else (text_at "agent_type" d) "agent" in
    record {
      name = agent_type;
      display_name = or_else (text_at "name" d) agent_type;
      description = text_else (text_at "description" d) (numbered_name "Step " idx);
      provider_preference = none;
      timeout = or_else (number_in (get "timeout_seconds" data')) 600;
      max_retries = 2;
      allowed_tools = combined_tools data' d;
    }

-- `retry`, and else that of the retry policy.
unfoldable pub retry_of : Dict → Option ℕ
unfolding number_in dict_in get
retry_of d =
    let of_policy : Option ℕ = elim (dict_in (get "retry_policy" d)) [
      | none ↦ none
      | some policy ↦ number_in (get "max_retries" policy)
    ] in
    if is_some (number_in (get "retry" d)) then number_in (get "retry" d) else of_policy

unfoldable pub step_backoff : Dict → Option String
unfolding text_at dict_in get
step_backoff d = elim (dict_in (get "retry_policy" d)) [
  | none ↦ none
  | some policy ↦ text_at "backoff" policy
]

unfoldable pub step_delay : (Value → Option ℕ) → Dict → ℕ
unfolding dict_in get is_true
step_delay float_ms d = elim (dict_in (get "retry_policy" d)) [
  | none ↦ 0
  | some policy ↦ elim (get "initial_delay" policy) [
    | none ↦ 0
    | some raw ↦ if is_true (some raw) then or_else (float_ms raw) 0 else 0
  ]
]

unfoldable pub step_inputs : Dict → Dict
unfolding list_in dict_in dicts merge get
step_inputs d = elim (list_in (get "inputs" d)) [
  | some vs ↦ merge empty (dicts vs)
  | none ↦ or_else (dict_in (get "inputs" d)) empty
]

unfoldable pub build_step : (Value → Option ℕ) → Dict → ℕ → Dict → Step
unfolding slug_name step_name build_agent retry_of step_backoff step_delay step_inputs text_at
    list_in texts dicts route_in is_true get
build_step float_ms data' idx d = record {
  step_num = idx;
  name = slug_name (step_name idx d);
  agent = build_agent data' idx d;
  prompt_template =
      text_else (text_at "prompt_template" d) (text_else (text_at "description" d) "Execute step");
  condition = text_at "condition" d;
  timeout = none;
  retry = retry_of d;
  backoff_strategy = step_backoff d;
  initial_delay = step_delay float_ms d;
  inputs = step_inputs d;
  outputs = empty;
  status = StepStatus.pending;
  started_at = none;
  completed_at = none;
  error = none;
  retry_count = 0;
  require_human_approval = is_true (get "require_human_approval" d);
  approval_gates = [];
  routes = map route_in (dicts (or_else (list_in (get "routes" d)) []));
  on_success = text_at "on_success" d;
  final_step = is_true (get "final_step" d);
  iteration = 0;
  parallel_with = map slug_name (texts (or_else (list_in (get "parallel" d)) []));
}

-- From the item with number `idx` on.
unfoldable pub build_steps_from : (Value → Option ℕ) → Dict → ℕ → List Value → Loaded (List Step)
unfolding build_step slug_raises
build_steps_from float_ms data' idx [] = loaded []
build_steps_from float_ms data' idx (dict d ∷ vs) =
    let rest : Loaded (List Step) = elim (build_steps_from float_ms data' (suc idx) vs) [
      | invalid e ↦ invalid e
      | loaded ss ↦ loaded (build_step float_ms data' idx d ∷ ss)
    ] in
    if slug_raises d then invalid no_attribute else rest
build_steps_from float_ms data' idx (_ ∷ vs) = invalid (step_not_dict idx)

unfoldable pub build_workflow_steps : (Value → Option ℕ) → Dict → List Value → Loaded (List Step)
unfolding build_steps_from
build_workflow_steps float_ms data' vs = build_steps_from float_ms data' 1 vs

-- `d.get("require_human_merge_approval", True)`
unfoldable pub merge_approval : Dict → Bool
unfolding is_true get
merge_approval d = elim (get "require_human_merge_approval" d) [
  | none ↦ true
  | some v ↦ is_true (some v)
]

unfoldable pub parse_require_human_merge_approval : Dict → Bool
unfolding merge_approval dict_in get
parse_require_human_merge_approval data' =
    let monitored : Bool = elim (dict_in (get "monitoring" data')) [
      | some m ↦ merge_approval m
      | none ↦ true
    ] in
    if is_some (get "require_human_merge_approval" data') then merge_approval data' else monitored

unfoldable pub parse_require_approval_for : Dict → List String
unfolding is_true dict_in list_in texts get
parse_require_approval_for data' =
    let of_metadata : Option Value = elim (dict_in (get "metadata" data')) [
      | none ↦ get "require_approval_for" data'
      | some m ↦ get "require_approval_for" m
    ] in
    let names =
      if is_true (get "require_approval_for" data')
      then get "require_approval_for" data'
      else of_metadata in
    texts (or_else (list_in names) [])

-- The arguments of `from_dict` beside the definition. The absent one and the empty text are alike.
pub record Overrides : Type 0 where
  pub workflow_id : Option String
  pub name_override : Option String
  pub description_override : Option String
  pub metadata : Dict

unfoldable pub metadata_block : Dict → Dict
unfolding dict_in get
metadata_block data' = or_else (dict_in (get "metadata" data')) empty

unfoldable pub workflow_name : Overrides → Dict → String
unfolding metadata_block text_at
workflow_name o data' =
    text_else o.name_override (text_else (text_at "name" (metadata_block data')) "Unnamed Workflow")

unfoldable pub resolved_id : Overrides → Dict → String
unfolding workflow_name metadata_block text_at slug
resolved_id o data' =
    text_else o.workflow_id
      (text_else (text_at "id" (metadata_block data')) (slug (workflow_name o data')))

-- `_slugify(name)`, where no id is given, raises.
unfoldable pub id_raises : Overrides → Dict → Bool
unfolding metadata_block get is_true
id_raises o data' =
    let block = metadata_block data' in
    not (truthy o.workflow_id)
    && (not (is_true (get "id" block))
        && (not (truthy o.name_override) && no_text (get "name" block)))

unfoldable pub make_workflow : ℕ → Overrides → Dict → List Step → Workflow
unfolding resolved_id workflow_name metadata_block text_at put update
    parse_require_human_merge_approval parse_require_approval_for
make_workflow now o data' ss = record {
  id = resolved_id o data';
  name = workflow_name o data';
  version =
      text_else (text_at "version" data')
        (text_else (text_at "version" (metadata_block data')) "1.0");
  description = text_else o.description_override (
      text_else (text_at "description" data')
        (or_else (text_at "description" (metadata_block data')) ""));
  steps = ss;
  state = WorkflowState.pending;
  current_step = 0;
  created_at = now;
  updated_at = now;
  completed_at = none;
  metadata = update (put "definition" (dict data') empty) o.metadata;
  require_human_merge_approval = parse_require_human_merge_approval data';
  require_approval_for = parse_require_approval_for data';
}

unfoldable pub from_steps :
    (Value → Option ℕ) → Policy → ℕ → Overrides → Dict → List Value → Loaded Workflow
unfolding build_workflow_steps make_workflow
from_steps float_ms policy now o data' [] = invalid no_steps
from_steps float_ms policy now o data' (v ∷ vs) =
    elim (build_workflow_steps float_ms data' (v ∷ vs)) [
      | invalid e ↦ invalid e
      | loaded ss ↦ loaded (apply_approval_gates policy (make_workflow now o data' ss))
    ]

-- `from_dict` of a dictionary, with the list of steps that its layout resolves to.
unfoldable pub from_dict :
    (Value → Option ℕ) → (Dict → List Value) → Policy → ℕ → Overrides → Dict → Loaded Workflow
unfolding from_steps resolved_id id_raises
from_dict float_ms resolve_steps policy now o data' =
    let built = from_steps float_ms policy now o data' (resolve_steps data') in
    let named = if is_empty (resolved_id o data') then invalid no_id else built in
    if id_raises o data' then invalid no_attribute else named

-- `from_yaml`, with the parsed content of the file at the path.
unfoldable pub from_yaml :
    (Value → Option ℕ)
    → (Dict → List Value)
    → Policy
    → ℕ
    → Overrides
    → String
    → Value
    → Loaded Workflow
unfolding from_dict put
from_yaml float_ms resolve_steps policy now o path (dict d) =
    from_dict float_ms resolve_steps policy now o (put "__yaml_path" (text path) d)
from_yaml float_ms resolve_steps policy now o path _ = invalid not_a_dict

-- `normalize_workflow_type`
unfoldable pub normalize_workflow_type : String → String
unfolding text_of
normalize_workflow_type tier_name =
    let cleaned = text_of (lower (strip (codes tier_name))) in
    if is_empty cleaned then "shortened" else cleaned

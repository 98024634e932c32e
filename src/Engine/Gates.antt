-- ===== src/Engine/Gates.antt =====
-- Approval gates: `WorkflowStep.has_approval_gate`, `get_approval_constraints` and
-- `get_tool_restrictions`, and `Workflow.apply_approval_gates` of nexus/core/models.py; and the
-- enforcer of nexus/core/approval.py. `strict_approvals` is the setting NEXUS_STRICT_APPROVALS, read once.
use nexus_arc.Base.{
  String, Bool, true, false, not, ◌&&◌, ◌||◌, none, some, List, [], ◌∷◌, ◌++◌, map, any,
  if◌then◌else◌, mem_text, codes, code_eq, decimal, contains, lower, truthy, ℕ,
}
use nexus_arc.Engine.Values.{empty}
use nexus_arc.Engine.Model.{
  GateType, pr_merge, deployment, data_access, custom, Gate, Step, Workflow,
}

abbrev pub same_type : GateType → GateType → Bool
same_type pr_merge pr_merge = true
same_type deployment deployment = true
same_type data_access data_access = true
same_type custom custom = true
same_type _ _ = false

unfoldable pub has_approval_gate : Step → GateType → Bool
has_approval_gate s t = any (λ g. same_type g.gate_type t && g.required) s.approval_gates

-- Only the type, the flag and the restrictions of the gate are read by the program; its message
-- is put into prompts.
unfoldable pub pr_merge_gate : String → Gate
pr_merge_gate message = record {
  gate_type = pr_merge;
  required = true;
  tool_restrictions = "vcs:merge_pr" ∷ "git push origin main" ∷ "git push origin master" ∷ [];
  approval_message = some message;
  metadata = empty;
}

unfoldable pub human_approval_gate : String → Gate
human_approval_gate message = record {
  gate_type = custom;
  required = true;
  tool_restrictions = [];
  approval_message = some message;
  metadata = empty;
}

unfoldable pub add_gate : Gate → Step → Step
add_gate g s = record s { approval_gates = s.approval_gates ++ g ∷ [] }

-- What `apply_approval_gates` reads beside the workflow: NEXUS_STRICT_APPROVALS and the two messages.
pub record Policy : Type 0 where
  pub strict_approvals : Bool
  pub merge_message : String
  pub human_message : String

-- One round of the first loop.
unfoldable pub merge_gate_step : Policy → Step → Step
merge_gate_step policy s =
    if has_approval_gate s pr_merge then s else add_gate (pr_merge_gate policy.merge_message) s

-- `f"step_{step.step_num}"`
unfoldable pub step_label : ℕ → List ℕ
step_label n = codes "step_" ++ decimal n

-- A step has no attribute `id`, so that the third test of the source compares None with texts.
unfoldable pub needs_approval : Policy → List String → Step → Bool
needs_approval policy names s =
    policy.strict_approvals
    || mem_text s.name names
    || any (λ t. code_eq (codes t) (step_label s.step_num)) names
    || s.require_human_approval

-- One round of the second loop.
unfoldable pub human_gate_step : Policy → List String → Step → Step
human_gate_step policy names s =
    if needs_approval policy names s && not (has_approval_gate s custom)
    then add_gate (human_approval_gate policy.human_message) s
    else s

unfoldable pub apply_approval_gates : Policy → Workflow → Workflow
apply_approval_gates policy w =
    let merged =
      if w.require_human_merge_approval then map (merge_gate_step policy) w.steps else w.steps in
    record w { steps = map (human_gate_step policy w.require_approval_for) merged }

-- `get_tool_restrictions`, before its removal of duplicates (a set, which only `validate_operation`
-- runs through).
unfoldable pub get_tool_restrictions : List Gate → List String
get_tool_restrictions [] = []
get_tool_restrictions (g ∷ gs) =
    let rest = get_tool_restrictions gs in if g.required then g.tool_restrictions ++ rest else rest

-- The messages that `get_approval_constraints` joins.
unfoldable pub get_approval_constraints : List Gate → List String
get_approval_constraints [] = []
get_approval_constraints (g ∷ gs) =
    let rest = get_approval_constraints gs in
    let message : String = elim g.approval_message [ none ↦ "" | some m ↦ m ] in
    if g.required && truthy g.approval_message then message ∷ rest else rest

-- `ApprovalGateEnforcer.validate_operation`: the texts are compared in lower case.
unfoldable pub validate_operation : Step → List ℕ → Bool
validate_operation s operation = not (
    any (λ r. contains (lower (codes r)) (lower operation))
      (get_tool_restrictions s.approval_gates))

unfoldable pub check_pr_merge_allowed : Step → Bool
check_pr_merge_allowed s = not (has_approval_gate s pr_merge)

-- ===== src/StatePlugin/Outputs.antt =====
-- `_normalize_completion_outputs` with `_infer_simple_condition_assignment`: where a completion names
-- its next agent, the variable is set that lets the router behind the step go there.
use nexus_arc.Base.{
  ◌+◌, String, Bool, false, not, ◌||◌, Option, none, some, List, [], ◌∷◌, if◌then◌else◌, codes,
  strip, is_empty,
}
use nexus_arc.Engine.Values.{Value, Dict, get, setdefault}
use nexus_arc.Engine.Model.{Step, Route, Workflow, get_step, step_at}
use nexus_arc.StatePlugin.Refs.{
  Text, is_blank, normalize_ref, refs_match, match_step_by_ref, route_target_ref, ref_text,
}

-- What `ast.parse(condition, mode="eval").body` is, as far as it is looked at.
pub data Operand : Type 0 where
  name : String → Operand
  constant : Value → Operand
  other_operand : Operand

pub data Operator : Type 0 where
  eq other_operator : Operator

pub data Node : Type 0 where
  compare : (left : Operand) (ops : List Operator) (comparators : List Operand) → Node
  other_node : Node

abbrev assignment : Operand → Operator → Operand → Option (String × Value)
assignment (name id) eq (constant v) = some (id, v)
assignment _ _ _ = none

abbrev assignment_of : Node → Option (String × Value)
assignment_of (compare left (op ∷ []) (comparator ∷ [])) = assignment left op comparator
assignment_of _ = none

-- `parse` is none where `ast.parse` raises.
unfoldable pub infer_simple_condition_assignment :
    (String → Option Node) → String → Option (String × Value)
infer_simple_condition_assignment parse condition = elim (parse condition) [
  | none ↦ none
  | some node ↦ assignment_of node
]

-- Whether a route with the target leads to the agent.
unfoldable pub points_to : Workflow → Text → Text → Bool
unfolding match_step_by_ref refs_match
points_to w next_agent target =
    let by_step : Bool = elim (match_step_by_ref w target) [
      | none ↦ false
      | some i ↦ elim (step_at w i) [
        | none ↦ false
        | some s ↦
            refs_match (codes s.name) next_agent || refs_match (codes s.agent.name) next_agent
      ]
    ] in
    refs_match target next_agent || by_step

unfoldable pub assign_condition : (String → Option Node) → Route → Dict → Dict
unfolding infer_simple_condition_assignment setdefault
assign_condition parse r outputs = elim r.when [
  | none ↦ outputs
  | some when ↦
      let assigned : Dict = elim (infer_simple_condition_assignment parse when) [
        | none ↦ outputs
        | some (key, value) ↦ setdefault key value outputs
      ] in
      if is_blank (strip (codes when)) then outputs else assigned
]

-- The first route that leads to the agent decides.
unfoldable pub assign_route : (String → Option Node) → Workflow → Text → List Route → Dict → Dict
unfolding points_to assign_condition route_target_ref
assign_route parse w next_agent [] outputs = outputs
assign_route parse w next_agent (r ∷ rs) outputs =
    let rest = assign_route parse w next_agent rs outputs in
    if is_empty (route_target_ref r) || not (points_to w next_agent (codes (route_target_ref r)))
    then rest
    else assign_condition parse r outputs

unfoldable pub normalize_completion_outputs :
    (String → Option Node) → (Value → Text) → Workflow → Step → Dict → Dict
unfolding assign_route get normalize_ref ref_text
normalize_completion_outputs parse show w s outputs =
    let next_agent = normalize_ref (ref_text show (get "next_agent" outputs)) in
    let routed : Dict = elim (get_step w (s.step_num + 1)) [
      | none ↦ outputs
      | some i ↦ elim (step_at w i) [
        | none ↦ outputs
        | some router ↦ assign_route parse w next_agent router.routes outputs
      ]
    ] in
    if is_blank next_agent then outputs else routed

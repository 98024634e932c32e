-- ===== src/Engine/Routing.antt =====
-- Conditions, the evaluation context, name lookup and routes: `evaluate_condition` of
-- nexus/core/workflow_engine/condition_eval.py, `_build_step_context`, `_find_step_by_name` and
-- `_slugify` of nexus/core/workflow.py, and `resolve_route_target` of
-- nexus/core/workflow_engine/transition_service.py.
use nexus_arc.Base.{
  ℕ, String, Bool, true, false, not, ◌&&◌, ◌||◌, ◌==◌, Option, none, some, List, [], ◌∷◌, leb,
  find_index, if◌then◌else◌, str_eq, codes, code_eq, lower, strip, strip_by, truthy, text_or,
  is_empty,
}
use nexus_arc.Engine.Values.{Value, Dict, empty, put, update, setdefault}
use nexus_arc.Engine.Model.{Step, StepStatus, Route, off, on, named, Workflow}

-- Python's `eval` of an expression in a context, with no builtins: the truth value of the result,
-- or none if it raises.
abbrev pub Eval : Type 0
Eval = String → Dict → Option Bool

unfoldable pub eval_locals : Dict → Dict
unfolding setdefault
eval_locals context =
    setdefault "null" Value.null
      (setdefault "false" (Value.boolean false) (setdefault "true" (Value.boolean true) context))

unfoldable pub evaluate_condition : Eval → Option String → Dict → Bool → Bool
unfolding eval_locals
evaluate_condition eval none context default_on_error = true
evaluate_condition eval (some condition) context default_on_error =
    if is_empty condition
    then true
    else (elim (eval condition (eval_locals context)) [ none ↦ default_on_error | some b ↦ b ])

-- One round of the loop of `_build_step_context`.
unfoldable pub note_step : Dict → Step → Dict
unfolding put update
note_step context s = elim s.status [
  | StepStatus.completed ↦
      update (put "result" (Value.dict s.outputs) (put s.name (Value.dict s.outputs) context))
        s.outputs
  | StepStatus.skipped ↦ put s.name (Value.dict s.outputs) context
  | _ ↦ context
]

unfoldable pub note_steps : Dict → List Step → Dict
unfolding note_step
note_steps context [] = context
note_steps context (s ∷ ss) = note_steps (note_step context s) ss

unfoldable pub build_step_context : Workflow → Dict
unfolding note_steps
build_step_context w = note_steps empty w.steps

-- The characters of the class `[a-zA-Z0-9_-]`.
abbrev pub is_slug_code : ℕ → Bool
is_slug_code c =
    (leb b'a' c && leb c b'z')
    || (leb b'A' c && leb c b'Z')
    || (leb b'0' c && leb c b'9')
    || (c == b'_')
    || (c == b'-')

-- `re.sub(r"[^a-zA-Z0-9_-]+", "-", …)`: each longest run of other characters becomes one dash.
-- The flag says that the character before belongs to such a run.
unfoldable pub dash_runs : Bool → List ℕ → List ℕ
dash_runs in_run [] = []
dash_runs in_run (c ∷ cs) =
    let rest = dash_runs (not (is_slug_code c)) cs in
    if is_slug_code c then c ∷ rest else (if in_run then rest else b'-' ∷ rest)

unfoldable pub slugify : List ℕ → List ℕ
unfolding dash_runs
slugify text = strip_by (λ c. c == b'-') (dash_runs false (lower (strip text)))

unfoldable pub names_step : String → Step → Bool
unfolding slugify
names_step name s =
    str_eq s.name name || code_eq (codes s.name) (slugify (codes name)) || str_eq s.agent.name name

unfoldable pub find_step_by_name : Workflow → String → Option ℕ
unfolding names_step
find_step_by_name w name = find_index (names_step name) w.steps

-- `route.get("goto") or route.get("then")`
unfoldable pub target_name : Route → Option String
target_name r = text_or r.goto r.then_goto

-- `bool(route.get("default")) and not when`
unfoldable pub is_default : Route → Bool
is_default r = elim r.default [
  | off ↦ false
  | on ↦ not (truthy r.when)
  | named s ↦ not (is_empty s) && not (truthy r.when)
]

-- `target_name or (default_val if isinstance(default_val, str) else None)`
unfoldable pub default_name : Route → Option String
unfolding target_name
default_name r =
    if truthy (target_name r)
    then target_name r
    else (elim r.default [ named s ↦ some s | _ ↦ none ])

-- `when and target_name and evaluate_condition(when, context, False)`
unfoldable pub route_taken : Eval → Dict → Route → Bool
unfolding target_name evaluate_condition
route_taken eval context r =
    truthy r.when && truthy (target_name r) && evaluate_condition eval r.when context false

-- The name that the loop over the routes ends with; `none` where it falls through with no default.
unfoldable pub route_name : Eval → Dict → Option String → List Route → Option String
unfolding is_default default_name route_taken
route_name eval context default_target [] = if truthy default_target then default_target else none
route_name eval context default_target (r ∷ rs) =
    let passed =
      route_name eval context (if is_default r then default_name r else default_target) rs in
    if is_default r then passed else (if route_taken eval context r then target_name r else passed)

unfoldable pub resolve_route_target : Eval → Workflow → Step → Dict → Option ℕ
unfolding route_name find_step_by_name
resolve_route_target eval w router context = elim (route_name eval context none router.routes) [
  | none ↦ none
  | some name ↦ find_step_by_name w name
]

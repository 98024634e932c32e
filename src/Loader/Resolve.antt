-- ===== src/Loader/Resolve.antt =====
-- `resolve_workflow_steps_list`, `resolve_next_agent_types_from_steps` and
-- `canonicalize_next_agent_from_steps`, with `resolve_next_agents` and `canonicalize_next_agent` of
-- WorkflowDefinition. The steps that the routes to other definition files lead to are an argument, [] where
-- the definition has no path.
use nexus_arc.Base.{
  ℕ, String, Bool, true, false, not, ◌&&◌, ◌||◌, ◌==◌, Option, none, some, List, [], ◌∷◌, ◌++◌, map,
  codes, code_eq, lower, strip, drop_while, strip_by, begins_with, mem_text, is_empty, is_some,
  str_eq, truthy, if◌then◌else◌,
}
use mathlib.Core.List.{reverse}
use nexus_arc.Engine.Values.{Value, text, boolean, Dict, empty, entry, get}
use nexus_arc.Loader.Fields.{text_of, is_true, text_at, or_else, list_in, dict_in, dicts}

-- `text.replace("-", "_")`
unfoldable pub underscored : String → String
unfolding text_of
underscored s = text_of (map (λ c. if c == b'-' then b'_' else c) (codes s))

unfoldable pub with_suffix : String → String → String
unfolding text_of
with_suffix s suffix = text_of (codes s ++ codes suffix)

unfoldable pub mapped_type : Dict → String → String
unfolding text_at dict_in get
mapped_type data' workflow_type = elim (dict_in (get "workflow_types" data')) [
  | none ↦ workflow_type
  | some types ↦ or_else (text_at workflow_type types) workflow_type
]

-- The keys under which the section of a type is looked up. (The source skips repeated ones.)
unfoldable pub keys_to_try : String → List String
unfolding underscored with_suffix
keys_to_try mapped =
    with_suffix (underscored mapped) "_workflow"
    ∷ underscored mapped
    ∷ with_suffix mapped "_workflow"
    ∷ mapped
    ∷ []

-- The steps of a section, if it is a dictionary with steps.
unfoldable pub section_steps : Option Value → Option (List Value)
unfolding dict_in list_in is_true get
section_steps v = elim (dict_in v) [
  | none ↦ none
  | some tier ↦
      if is_true (get "steps" tier) then some (or_else (list_in (get "steps" tier)) []) else none
]

unfoldable pub find_tier : Dict → List String → Option (List Value)
unfolding section_steps get
find_tier data' [] = none
find_tier data' (key ∷ keys) =
    let rest = find_tier data' keys in
    if is_some (section_steps (get key data')) then section_steps (get key data') else rest

unfoldable pub flat_steps : Dict → List Value
unfolding list_in get
flat_steps data' = or_else (list_in (get "steps" data')) []

-- `key.endswith("_workflow")`
unfoldable pub is_section : String → Bool
is_section key = begins_with (reverse (codes "_workflow")) (reverse (codes key))

unfoldable pub first_section : Dict → List Value
unfolding section_steps is_section
first_section empty = []
first_section (entry key v d) =
    let rest = first_section d in
    if is_section key && is_some (section_steps (some v))
    then or_else (section_steps (some v)) []
    else rest

abbrev pub first_of : List Value → List Value → List Value
first_of [] vs = vs
first_of (u ∷ us) vs = u ∷ us

unfoldable pub resolve_workflow_steps_list : List Value → String → Dict → List Value
unfolding mapped_type keys_to_try find_tier flat_steps first_section
resolve_workflow_steps_list routed workflow_type data' =
    if is_empty workflow_type
    then first_of (flat_steps data') (first_section data')
    else (elim (find_tier data' (keys_to_try (mapped_type data' workflow_type))) [
      | some steps ↦ steps
      | none ↦ first_of routed (flat_steps data')
    ])

-- `by_id.get(id)`: of several steps with one id the last.
unfoldable pub by_id : String → List Dict → Option Dict
unfolding text_at
by_id id [] = none
by_id id (d ∷ ds) =
    let rest = by_id id ds in
    if is_some rest
    then rest
    else (elim (text_at "id" d) [ none ↦ none | some k ↦ if str_eq k id then some d else none ])

unfoldable pub agent_of : Dict → String
unfolding text_at
agent_of d = or_else (text_at "agent_type" d) "unknown"

-- `route.get("then") or route.get("default")`, as a text.
unfoldable pub route_ref : Dict → Option String
unfolding text_at is_true get
route_ref d = if truthy (text_at "then" d) then text_at "then" d else (elim (get "default" d) [
  | some (text s) ↦ some s
  | some (boolean b) ↦ if b then some "True" else none
  | _ ↦ none
])

-- Where one route of a router leads.
unfoldable pub route_agents : List Dict → Dict → List String
unfolding route_ref by_id agent_of
route_agents steps d = elim (route_ref d) [
  | none ↦ []
  | some ref ↦
      let found : String = elim (by_id ref steps) [ none ↦ ref | some t ↦ agent_of t ] in
      if is_empty ref then [] else found ∷ []
]

unfoldable pub routes_agents : List Dict → List Dict → List String
unfolding route_agents
routes_agents steps [] = []
routes_agents steps (d ∷ ds) = route_agents steps d ++ routes_agents steps ds

-- Where a router leads by its own default.
unfoldable pub default_agents : List Dict → Dict → List String
unfolding by_id agent_of text_at
default_agents steps target = elim (text_at "default" target) [
  | none ↦ []
  | some id ↦
      let found : List String = elim (by_id id steps) [ none ↦ [] | some t ↦ agent_of t ∷ [] ] in
      if is_empty id then [] else found
]

unfoldable pub router_agents : List Dict → Dict → List String
unfolding routes_agents default_agents list_in dicts get
router_agents steps target =
    routes_agents steps (dicts (or_else (list_in (get "routes" target)) []))
    ++ default_agents steps target

-- The successors of one step.
unfoldable pub next_agents : List Dict → Dict → List String
unfolding router_agents by_id agent_of text_at is_true get
next_agents steps d =
    let target : List String = elim (text_at "on_success" d) [
      | none ↦ []
      | some id ↦ elim (by_id id steps) [
        | none ↦ []
        | some t ↦
            if str_eq (or_else (text_at "agent_type" t) "") "router"
            then router_agents steps t
            else agent_of t ∷ []
      ]
    ] in
    if is_true (get "final_step" d) || not (truthy (text_at "on_success" d))
    then "none" ∷ []
    else target

unfoldable pub all_next_agents : List Dict → String → List Dict → List String
unfolding next_agents text_at
all_next_agents steps current [] = []
all_next_agents steps current (d ∷ ds) =
    let rest = all_next_agents steps current ds in
    elim (text_at "agent_type" d) [
      | none ↦ rest
      | some a ↦ if str_eq a current then next_agents steps d ++ rest else rest
    ]

-- Without repetitions, in the order of the first occurrences; `seen` were there before.
unfoldable pub unique : List String → List String → List String
unfolding mem_text
unique seen [] = []
unique seen (a ∷ as') =
    let rest = unique (if mem_text a seen then seen else a ∷ seen) as' in
    if mem_text a seen then rest else a ∷ rest

unfoldable pub resolve_next_agent_types_from_steps : List Value → String → List String
unfolding all_next_agents unique dicts
resolve_next_agent_types_from_steps steps current =
    unique [] (all_next_agents (dicts steps) current (dicts steps))

-- `valid[0] if len(valid) == 1 else ""`
abbrev pub only_one : List String → String
only_one (a ∷ []) = a
only_one _ = ""

-- `str(step.get(k, "")).strip().lower()`
unfoldable pub ref_at : String → Dict → List ℕ
unfolding text_at
ref_at k d = lower (strip (codes (or_else (text_at k d) "")))

unfoldable pub canonicalize_next_agent_from_steps : List Dict → List ℕ → List String → String
unfolding ref_at text_at text_of mem_text
canonicalize_next_agent_from_steps [] candidate valid = only_one valid
canonicalize_next_agent_from_steps (d ∷ ds) candidate valid =
    let rest = canonicalize_next_agent_from_steps ds candidate valid in
    let mapped = text_of (strip (codes (or_else (text_at "agent_type" d) ""))) in
    if (code_eq (lower candidate) (ref_at "id" d) || code_eq (lower candidate) (ref_at "name" d))
      && mem_text mapped valid
    then mapped
    else rest

abbrev pub no_agents : List String → Bool
no_agents [] = true
no_agents (_ ∷ _) = false

abbrev pub terminal_next_agent_values : List String
terminal_next_agent_values =
    "none" ∷ "n/a" ∷ "null" ∷ "no" ∷ "end" ∷ "done" ∷ "finish" ∷ "complete" ∷ "" ∷ []

-- `_normalize`: spaces, then "@" at the left, then "`" at both sides.
unfoldable pub normalize_candidate : List ℕ → List ℕ
normalize_candidate t =
    strip (strip_by (λ c. c == b'`') (strip (drop_while (λ c. c == b'@') (strip t))))

-- The definition is read twice: `steps` are those of the first reading, and `again` those of the
-- second, none if that fails.
unfoldable pub canonicalize_next_agent : List Value → Option (List Value) → String → String → String
unfolding resolve_next_agent_types_from_steps canonicalize_next_agent_from_steps normalize_candidate
    text_of mem_text dicts
canonicalize_next_agent steps again current proposed =
    let candidate = normalize_candidate (codes proposed) in
    let valid = resolve_next_agent_types_from_steps steps current in
    let mapped : String = elim again [
      | none ↦ only_one valid
      | some vs ↦ canonicalize_next_agent_from_steps (dicts vs) candidate valid
    ] in
    if mem_text (text_of (lower candidate)) terminal_next_agent_values
    then "none"
    else if no_agents valid
    then ""
    else if mem_text (text_of candidate) valid
    then text_of candidate
    else mapped

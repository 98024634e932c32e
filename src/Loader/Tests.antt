-- ===== src/Loader/Tests.antt =====
-- A definition with a router, loaded and asked for the agents that may follow.
use nexus_arc.Base.{
  ℕ, ◌≡◌, refl, String, true, ◌||◌, Option, none, some, List, [], ◌∷◌, map, mem_text, str_eq,
  is_empty, decimal, decimal_from,
}
use nexus_arc.Engine.Values.{
  Value, text, boolean, array, dict, Items, no_items, item, Dict, empty, entry,
}
use nexus_arc.Engine.Model.{Step, Workflow, step_at}
use nexus_arc.Engine.Samples.{policy, sample}
use nexus_arc.Engine.Samples
use nexus_arc.Engine.Tests.{program}
use nexus_arc.Engine.Reach.{IsFresh}
use nexus_arc.StatePlugin.Numbered.{IsNumbered}
use nexus_arc.Loader.Fields.{
  text_of, slug, is_true, text_in, number_in, text_at, list_in, dict_in, texts, dicts, route_in,
  merge,
}
use nexus_arc.Loader.Build.{
  Loaded, loaded, invalid, slug_raises, id_raises, slug_name, numbered_name, step_name,
  combined_tools, build_agent, retry_of, step_backoff, step_delay, step_inputs, build_step,
  build_steps_from, build_workflow_steps, merge_approval, parse_require_human_merge_approval,
  parse_require_approval_for, Overrides, metadata_block, workflow_name, resolved_id, make_workflow,
  from_steps, from_dict,
}
use nexus_arc.Loader.Resolve.{
  underscored, with_suffix, mapped_type, keys_to_try, section_steps, find_tier, flat_steps,
  is_section, first_section, resolve_workflow_steps_list, by_id, agent_of, route_ref, route_agents,
  routes_agents, default_agents, router_agents, next_agents, all_next_agents, unique,
  resolve_next_agent_types_from_steps, ref_at, canonicalize_next_agent_from_steps,
  normalize_candidate, canonicalize_next_agent,
}
use nexus_arc.Loader.Loaded.{from_dict-IsFresh, from_dict-allowed_tools}
use nexus_arc.Loader.NextAgents.{canonicalize_next_agent-IsValidChoice}

unfoldable pub loader_program : Unit {0}
unfolding program text_of slug is_true text_in number_in text_at list_in dict_in texts dicts
    route_in merge slug_raises id_raises slug_name numbered_name step_name combined_tools
    build_agent retry_of step_backoff step_delay step_inputs build_step build_steps_from
    build_workflow_steps merge_approval parse_require_human_merge_approval
    parse_require_approval_for metadata_block workflow_name resolved_id make_workflow from_steps
    from_dict underscored with_suffix mapped_type keys_to_try section_steps find_tier flat_steps
    is_section first_section resolve_workflow_steps_list by_id agent_of route_ref route_agents
    routes_agents default_agents router_agents next_agents all_next_agents unique
    resolve_next_agent_types_from_steps ref_at canonicalize_next_agent_from_steps
    normalize_candidate canonicalize_next_agent decimal decimal_from mem_text
loader_program = tt

abbrev list_of : List Value → Value
list_of vs = array (go vs)
  where
    go : List Value → Items
    go [] = no_items
    go (v ∷ vs) = item v (go vs)

abbrev plan : Dict
plan = entry "id" (text "Plan it!") (
    entry "agent_type" (text "planner") (
      entry "tools" (list_of (text "fs:read" ∷ text "shell" ∷ []))
        (entry "on_success" (text "review") empty)))

abbrev goto_route : Dict
goto_route = entry "when" (text "ok") (entry "goto" (text "ship") empty)

abbrev review : List Dict → Dict
review routes =
    entry "id" (text "review")
      (entry "agent_type" (text "router") (entry "routes" (list_of (map dict routes)) empty))

abbrev ship : Dict
ship =
    entry "id" (text "ship")
      (entry "agent_type" (text "shipper") (entry "final_step" (boolean true) empty))

abbrev pub definition : List Value → Dict
definition steps = entry "metadata" (dict (entry "name" (text "Demo Flow") empty)) (
    entry "allowed_tools" (list_of (text "fs:read" ∷ []))
      (entry "full_workflow" (dict (entry "steps" (list_of steps) empty)) empty))

abbrev then_route : Dict
then_route = entry "then" (text "ship") empty

abbrev pub good : List Value
good = dict plan ∷ dict (review (then_route ∷ [])) ∷ dict ship ∷ []

abbrev pub no_float : Value → Option ℕ
no_float v = none

abbrev resolve : Dict → List Value
resolve = resolve_workflow_steps_list [] "full"

abbrev overrides : Overrides
overrides = record {
  workflow_id = none;
  name_override = none;
  description_override = none;
  metadata = empty;
}

made : Loaded Workflow
made = from_dict no_float resolve policy 7 overrides (definition good)

abbrev workflow_of : Loaded Workflow → List Step
workflow_of (loaded w) = w.steps
workflow_of (invalid e) = []

made_steps :
    map {B = ℕ × String × List String}
      (λ s. (s.step_num, s.name, s.agent.allowed_tools))
      (workflow_of made)
    ≡ (1, "plan-it", "fs:read" ∷ "vcs:add_comment" ∷ [])
      ∷ (2, "review", "vcs:add_comment" ∷ [])
      ∷ (3, "ship", "vcs:add_comment" ∷ [])
      ∷ []
unfolding made loader_program
made_steps = refl

next_test : resolve_next_agent_types_from_steps good "planner" ≡ "shipper" ∷ []
unfolding loader_program
next_test = refl

canonical_test : canonicalize_next_agent good (some good) "planner" " @Review " ≡ "shipper"
unfolding loader_program
canonical_test = refl

made_workflow : Workflow
made_workflow = elim made [ loaded w ↦ w | invalid e ↦ sample ]

made_ok : from_dict no_float resolve policy 7 overrides (definition good) ≡ loaded made_workflow
unfolding made made_workflow loader_program
made_ok = refl

from_dict-IsFresh_example : IsFresh made_workflow × IsNumbered made_workflow
from_dict-IsFresh_example =
    from_dict-IsFresh no_float resolve policy 7 overrides (definition good) made_ok

abbrev checked_step : Step
checked_step = elim (step_at made_workflow 0) [ none ↦ Samples.plan | some s ↦ s ]

from_dict-allowed_tools_example :
    (mem_text "fs:read" ("fs:read" ∷ []) || str_eq "fs:read" "vcs:add_comment") ≡ true
unfolding made made_workflow loader_program
from_dict-allowed_tools_example =
    from_dict-allowed_tools no_float resolve policy 7 overrides (definition good)
      (text "fs:read" ∷ []) 0 checked_step "fs:read" made_ok refl refl refl

canonicalize_next_agent-IsValidChoice_example :
    (str_eq "shipper" "none"
      || (is_empty "shipper"
          || mem_text "shipper" (resolve_next_agent_types_from_steps good "planner")))
    ≡ true
unfolding loader_program
canonicalize_next_agent-IsValidChoice_example =
    canonicalize_next_agent-IsValidChoice good (some good) "planner" " @Review "

abbrev blind : List Dict
blind = plan ∷ review (goto_route ∷ []) ∷ ship ∷ []

-- A router whose routes name their targets under `goto` only.
next_agents-blind : next_agents blind plan ≡ []
unfolding loader_program
next_agents-blind = refl

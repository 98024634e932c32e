-- ===== src/Loader/Successors.antt =====
-- Which agents may follow an agent, described step by step beside
-- resolve_next_agent_types_from_steps of nexus/core/workflow_engine/workflow_definition_loader.py.
use mathlib.Core.List.{Memᴰ}
use nexus_arc.Base.{String, Bool, true, false, not, ◌||◌, ◌≡◌, some, List, any, truthy, is_empty}
use nexus_arc.Engine.Values.{Dict, get}
use nexus_arc.Loader.Fields.{is_true, text_at}
use nexus_arc.Loader.Resolve.{agent_of}
use nexus_arc.Loader.NextAgents.{has_text}
use nexus_arc.Loader.Named.{Named, is_router, routes_of, Ref}

module _ (steps : List Dict) where
  -- The agent that a reference leads to: that of the step named so, and else the reference itself.
  pub data LeadsTo (ref : String) : String → Type 0 where
    to_step : {t : Dict} → Named ref steps t → LeadsTo ref (agent_of t)
    to_itself : any (has_text "id" ref) steps ≡ false → LeadsTo ref ref

  -- The agents behind a router.
  pub data Behind (router : Dict) : String → Type 0 where
    along :
        {r : Dict} {ref a : String}
        → Memᴰ r (routes_of router)
        → Ref r ref
        → LeadsTo ref a
        → Behind router a
    otherwise :
        {ref : String} {t : Dict}
        → text_at "default" router ≡ some ref
        → is_empty ref ≡ false
        → Named ref steps t
        → Behind router (agent_of t)

  abbrev pub is_last : Dict → Bool
  is_last d = is_true (get "final_step" d) || not (truthy (text_at "on_success" d))

  -- An agent that may follow the step.
  pub data Successor (d : Dict) : String → Type 0 where
    ends : is_last d ≡ true → Successor d "none"
    direct :
        {id : String} {t : Dict}
        → is_last d ≡ false
        → text_at "on_success" d ≡ some id
        → Named id steps t
        → is_router t ≡ false
        → Successor d (agent_of t)
    routed :
        {id a : String} {t : Dict}
        → is_last d ≡ false
        → text_at "on_success" d ≡ some id
        → Named id steps t
        → is_router t ≡ true
        → Behind t a
        → Successor d a

-- ===== src/Engine/RouteChoice.antt =====
-- Which step a router leads to, against a description that makes no pass over the routes with a
-- running default.
use nexus_arc.Base.{
  ◌≡◌, refl, Option, none, some, arith, String, Bool, not, ◌&&◌, List, [], ◌∷◌, if◌then◌else◌,
  truthy,
}
use nexus_arc.Engine.Values.{Dict}
use nexus_arc.Engine.Model.{Step, Workflow, Route}
use nexus_arc.Engine.Routing.{
  Eval, target_name, is_default, default_name, route_taken, route_name, resolve_route_target,
  find_step_by_name,
}

-- The first route that the test passes.
abbrev pub first_where : (Route → Bool) → List Route → Option Route
first_where p [] = none
first_where p (r ∷ rs) = let later = first_where p rs in if p r then some r else later

-- The target of the last default route.
abbrev pub last_default : Option String → List Route → Option String
last_default before [] = before
last_default before (r ∷ rs) = last_default (if is_default r then default_name r else before) rs

-- The name that a router's routes give: of the first route with a condition that holds, or else of
-- the last default route, if it names a target.
abbrev pub chosen_name : Eval → Dict → Option String → List Route → Option String
chosen_name eval context before rs =
    elim (first_where (λ r. not (is_default r) && route_taken eval context r) rs) [
      | some r ↦ target_name r
      | none ↦ if truthy (last_default before rs) then last_default before rs else none
    ]

route_name-chosen :
    (eval : Eval) (context : Dict) (before : Option String) (rs : List Route)
    → route_name eval context before rs ≡ chosen_name eval context before rs
unfolding route_name
route_name-chosen eval context before [] = refl
route_name-chosen eval context before (r ∷ rs) = ground (
  arith,
  route_name-chosen eval context before rs,
  route_name-chosen eval context (default_name r) rs,
)

-- A router leads to the step named by the first of its routes, in their order, that is no default,
-- has a target and a condition that holds (an error counts as false); if there is none, to the step
-- named by the last default route; and nowhere if that names no target or no step has the name.
pub resolve_route_target_lem :
    (eval : Eval) (w : Workflow) (router : Step) (context : Dict)
    → resolve_route_target eval w router context
      ≡ elim (chosen_name eval context none router.routes) [
        | none ↦ none
        | some name ↦ find_step_by_name w name
      ]
unfolding resolve_route_target
resolve_route_target_lem eval w router context =
    rw (route_name-chosen eval context none router.routes, resolve_route_target)

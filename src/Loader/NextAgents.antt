-- ===== src/Loader/NextAgents.antt =====
-- The agents that may follow a step, and the choice of the proposed one.
use nexus_arc.Base.{
  ℕ, String, Bool, true, false, not, ◌&&◌, ◌||◌, ◌≡◌, refl, ap, ◌∙◌, inl, inr, Option, none, some,
  List, [], ◌∷◌, ◌++◌, any, lower, mem_text, str_eq, str_eq→eq, eq→str_eq, is_empty, codes, arith,
  if_ind, Bool-cases, Option-cases, if◌then◌else◌,
}
use nexus_arc.Engine.Values.{Value, Dict}
use nexus_arc.Loader.Fields.{text_at, text_of, dicts}
use nexus_arc.Loader.Resolve.{
  next_agents, all_next_agents, unique, resolve_next_agent_types_from_steps, only_one,
  canonicalize_next_agent_from_steps, terminal_next_agent_values, no_agents, normalize_candidate,
  canonicalize_next_agent,
}

mem_text_self : (a : String) (as' : List String) → mem_text a (a ∷ as') ≡ true
unfolding mem_text
mem_text_self a as' = ground (arith, eq→str_eq a a refl)

and_right : (a b : Bool) → (a && b) ≡ true → b ≡ true
and_right a b h = ground (arith, h)

or_right : (a b : Bool) → b ≡ true → (a || b) ≡ true
or_right a b h = ground (arith, h)

mem_text_same :
    (a b : String) (as' : List String) → str_eq a b ≡ true → mem_text a as' ≡ mem_text b as'
mem_text_same a b as' e = ap (λ x. mem_text x as') (str_eq→eq a b e)

abbrev pub is_this : String → Option String → Bool
is_this current none = false
is_this current (some a) = str_eq a current

-- A valid agent, or the empty text.
abbrev IsValidChoice : List String → String → Type 0
IsValidChoice valid a = (is_empty a || mem_text a valid) ≡ true

only_one-IsValidChoice : (valid : List String) → IsValidChoice valid (only_one valid)
only_one-IsValidChoice [] = refl
only_one-IsValidChoice (a ∷ []) = ground (arith, mem_text_self a [])
only_one-IsValidChoice (a ∷ b ∷ as') = refl

from_steps-IsValidChoice :
    (ds : List Dict) (candidate : List ℕ) (valid : List String)
    → IsValidChoice valid (canonicalize_next_agent_from_steps ds candidate valid)
unfolding canonicalize_next_agent_from_steps
from_steps-IsValidChoice [] candidate valid = only_one-IsValidChoice valid
from_steps-IsValidChoice (d ∷ ds) candidate valid =
    ground (arith, from_steps-IsValidChoice ds candidate valid)

choice-IsChosen :
    (valid : List String) (terminal ends : Bool) (c m : String)
    → IsValidChoice valid m
    → let x = if terminal then "none" else if ends then "" else if mem_text c valid then c else m in
      (str_eq x "none" || (is_empty x || mem_text x valid)) ≡ true
choice-IsChosen valid terminal ends c m h =
    if_ind IsChosen terminal {x = "none"} {y = _} (λ _. refl)
      (λ _.
        if_ind IsChosen ends {x = ""} {y = _} (λ _. refl)
          (λ _.
            if_ind IsChosen (mem_text c valid) {x = c} {y = m}
              (λ found. or_right (str_eq c "none") _ (or_right (is_empty c) _ found))
              (λ _. or_right (str_eq m "none") _ h)))
  where
    IsChosen : String → Type 0
    IsChosen x = (str_eq x "none" || (is_empty x || mem_text x valid)) ≡ true

-- The agent that a proposal is turned into is "none", or an agent that may follow the current one, or
-- the empty text, which stands for no choice; for both readings of the definition.
pub canonicalize_next_agent-IsValidChoice :
    (steps : List Value) (again : Option (List Value)) (current proposed : String)
    → let chosen = canonicalize_next_agent steps again current proposed in
      (str_eq chosen "none"
        || (is_empty chosen || mem_text chosen (resolve_next_agent_types_from_steps steps current)))
      ≡ true
unfolding canonicalize_next_agent
canonicalize_next_agent-IsValidChoice steps again current proposed =
    choice-IsChosen valid (mem_text (text_of (lower own_candidate)) terminal_next_agent_values)
      (no_agents valid) (text_of own_candidate) _ (mapped again)
  where
    valid : List String
    valid = resolve_next_agent_types_from_steps steps current

    own_candidate : List ℕ
    own_candidate = normalize_candidate (codes proposed)

    mapped :
        (o : Option (List Value))
        → IsValidChoice valid (elim o [
          | none ↦ only_one valid
          | some vs ↦ canonicalize_next_agent_from_steps (dicts vs) own_candidate valid
        ])
    mapped none = only_one-IsValidChoice valid
    mapped (some vs) = from_steps-IsValidChoice (dicts vs) own_candidate valid

mem_text-unique :
    (a : String) (seen as' : List String)
    → mem_text a (unique seen as') ≡ (not (mem_text a seen) && mem_text a as')
unfolding unique mem_text
mem_text-unique a seen [] = ground arith
mem_text-unique a seen (b ∷ as') = elim (Bool-cases (mem_text b seen)) [
  | inl old ↦ rw old (mem_text-unique a seen as' ∙ ground (arith, mem_text_same a b seen, old))
  | inr new ↦ rw new (ground (arith, mem_text-unique a (b ∷ seen) as', mem_text_same a b seen, new))
]

-- No text stands twice in the list.
abbrev pub IsDistinct : List String → Type 0
IsDistinct [] = Unit {0}
IsDistinct (a ∷ as') = (mem_text a as' ≡ false) × IsDistinct as'

unique-IsDistinct : (seen as' : List String) → IsDistinct (unique seen as')
unfolding unique mem_text
unique-IsDistinct seen [] = tt
unique-IsDistinct seen (b ∷ as') = elim (Bool-cases (mem_text b seen)) [
  | inl old ↦ rw old (unique-IsDistinct seen as')
  | inr new ↦ rw new (
    mem_text-unique b (b ∷ seen) as' ∙ ground (arith, eq→str_eq b b refl),
    unique-IsDistinct (b ∷ seen) as',
  )
]

pub mem_text-append :
    (a : String) (as' bs : List String) → mem_text a (as' ++ bs) ≡ (mem_text a as' || mem_text a bs)
unfolding mem_text
mem_text-append a [] bs = refl
mem_text-append a (b ∷ as') bs = ground (arith, mem_text-append a as' bs)

-- The field of the step has the text.
abbrev pub has_text : String → String → Dict → Bool
has_text k this d = is_this this (text_at k d)

mem_text-all_next_agents :
    (a current : String) (steps ds : List Dict)
    → mem_text a (all_next_agents steps current ds)
      ≡ any (λ d. has_text "agent_type" current d && mem_text a (next_agents steps d)) ds
unfolding all_next_agents mem_text
mem_text-all_next_agents a current steps [] = refl
mem_text-all_next_agents a current steps (d ∷ ds) = elim (Option-cases (text_at "agent_type" d)) [
  | inl e ↦ rw (e, all_next_agents) (mem_text-all_next_agents a current steps ds)
  | inr (x, e) ↦
      rw (e, all_next_agents)
        (elim (Bool-cases (str_eq x current)) [
          | inr other ↦ rw other (mem_text-all_next_agents a current steps ds)
          | inl this ↦ rw this (
              mem_text-append a (next_agents steps d) (all_next_agents steps current ds)
              ∙ ap (λ b. mem_text a (next_agents steps d) || b)
                  (mem_text-all_next_agents a current steps ds))
        ])
]

pub resolve_next_agent_types_from_steps-IsDistinct :
    (steps : List Value) (current : String)
    → IsDistinct (resolve_next_agent_types_from_steps steps current)
      × ((a : String)
          → mem_text a (resolve_next_agent_types_from_steps steps current)
            ≡ any
                (λ d. has_text "agent_type" current d && mem_text a (next_agents (dicts steps) d))
                (dicts steps))
unfolding resolve_next_agent_types_from_steps
resolve_next_agent_types_from_steps-IsDistinct steps current = (
  unique-IsDistinct [] (all_next_agents (dicts steps) current (dicts steps)),
  λ a.
      mem_text-unique a [] (all_next_agents (dicts steps) current (dicts steps))
      ∙ mem_text-all_next_agents a current (dicts steps) (dicts steps),
)

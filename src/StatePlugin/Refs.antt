-- ===== src/StatePlugin/Refs.antt =====
-- The references of the plugin to steps and agents: `_normalize_ref`, `_refs_match`,
-- `_match_step_by_ref` and `_route_target_ref`, and what the completion reads from its outputs.
use Prim.Native.Nat.{ℕ, ◌+◌, ◌-◌, ◌*◌}
use nexus_arc.Base.{
  String, Bool, true, false, not, ◌&&◌, ◌||◌, ◌==◌, Option, none, some, List, [], ◌∷◌, leb,
  find_index, if◌then◌else◌, codes, code_eq, lower, strip, drop_while, truthy, decimal,
}
use nexus_arc.Engine.Values.{
  Value, null, boolean, number, text, array, dict, no_items, item, empty, entry,
}
use nexus_arc.Engine.Model.{Step, Route, named, Workflow}
use nexus_arc.Engine.Routing.{slugify, target_name}

abbrev pub Text : Type 0
Text = List ℕ

-- `not text`
abbrev pub is_blank : Text → Bool
is_blank [] = true
is_blank (_ ∷ _) = false

-- `str(value or "").strip().lstrip("@").lower()` of a text.
unfoldable pub normalize_ref : Text → Text
normalize_ref value = lower (drop_while (λ c. c == b'@') (strip value))

unfoldable pub refs_match : Text → Text → Bool
unfolding normalize_ref slugify
refs_match left right =
    let l = normalize_ref left in
    let r = normalize_ref right in
    if is_blank l || is_blank r then false else code_eq l r || code_eq (slugify l) (slugify r)

unfoldable pub step_ref : Step → Text
step_ref s = normalize_ref (codes s.name)

unfoldable pub agent_ref : Step → Text
agent_ref s = normalize_ref (codes s.agent.name)

-- `ref in {step_name, agent_name} or slug and slug in {step_name, agent_name}`
unfoldable pub answers_to : Text → Step → Bool
unfolding step_ref agent_ref slugify
answers_to ref s =
    code_eq ref (step_ref s)
    || code_eq ref (agent_ref s)
    || (not (is_blank (slugify ref))
        && (code_eq (slugify ref) (step_ref s) || code_eq (slugify ref) (agent_ref s)))

unfoldable pub match_step_by_ref : Workflow → Text → Option ℕ
unfolding answers_to
match_step_by_ref w ref =
    let normalized = normalize_ref ref in
    if is_blank normalized then none else find_index (answers_to normalized) w.steps

unfoldable pub route_target_ref : Route → String
unfolding target_name
route_target_ref r =
    let default_ref : String = elim r.default [ named s ↦ s | _ ↦ "" ] in
    let target : String = elim (target_name r) [ none ↦ "" | some s ↦ s ] in
    if truthy (target_name r) then target else default_ref

-- `str(value or "")`; the text of a list or dictionary that is not empty is a parameter.
unfoldable pub ref_text : (Value → Text) → Option Value → Text
ref_text show none = []
ref_text show (some null) = []
ref_text show (some (boolean b)) = if b then codes "True" else []
ref_text show (some (number n)) = if n == 0 then [] else decimal n
ref_text show (some (text s)) = codes s
ref_text show (some (array no_items)) = []
ref_text show (some (array (item v vs))) = show (array (item v vs))
ref_text show (some (dict empty)) = []
ref_text show (some (dict (entry k v d))) = show (dict (entry k v d))

-- The digits of an integer literal, with single underscores between them. The flag says that the
-- character before is a digit.
unfoldable pub digits_value : ℕ → Bool → Text → Option ℕ
digits_value acc after_digit [] = if after_digit then some acc else none
digits_value acc after_digit (c ∷ cs) =
    let is_digit = leb b'0' c && leb c b'9' in
    let rest = digits_value (if is_digit then acc * 10 + (c - b'0') else acc) is_digit cs in
    if is_digit || (c == b'_' && after_digit) then rest else none

-- `int(text)`, where a negative number, which a completion refuses like 0, is read as 0.
abbrev signed_value : Text → Option ℕ
signed_value [] = none
signed_value (c ∷ cs) =
    let negative : Option ℕ = elim (digits_value 0 false cs) [ none ↦ none | some n ↦ some 0 ] in
    if c == b'+'
    then digits_value 0 false cs
    else (if c == b'-' then negative else digits_value 0 false (c ∷ cs))

-- `int(value or 0)`, or 0 where that raises.
unfoldable pub step_num_of : Option Value → ℕ
unfolding digits_value
step_num_of (some (boolean b)) = if b then 1 else 0
step_num_of (some (number n)) = n
step_num_of (some (text s)) = elim (signed_value (strip (codes s))) [ none ↦ 0 | some n ↦ n ]
step_num_of _ = 0

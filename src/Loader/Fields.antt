-- ===== src/Loader/Fields.antt =====
-- What the loader reads from the dictionaries of a parsed definition. A text stands where the source
-- expects one (a value of another type at such a key counts as absent), and texts are printable ASCII.
use Prim.Native.Char.{Char}
use Prim.Native.Nat.{ℕ, ◌-◌}
use nexus_arc.Base.{
  String, Bool, true, false, not, Option, none, some, List, [], ◌∷◌, get_elem?, if◌then◌else◌,
  codes, is_empty, ◌==◌,
}
use nexus_arc.Engine.Values.{
  Value, null, boolean, number, text, array, dict, Items, no_items, item, Dict, empty, entry, get,
  update,
}
use nexus_arc.Engine.Model.{Route, RouteDefault, off, on, named}
use nexus_arc.Engine.Routing.{slugify}

unfoldable pub chars : String → List Char
chars String.[] = []
chars (String.◌∷◌ c s) = c ∷ chars s

abbrev pub printable : String
printable =
    " !\"#$%&'()*+,-./0123456789:;<=>?@ABCDEFGHIJKLMNOPQRSTUVWXYZ[\\]^_`abcdefghijklmnopqrstuvwxyz{|}~"

-- The text with the given character codes.
unfoldable pub text_of : List ℕ → String
unfolding chars
text_of [] = String.[]
text_of (c ∷ cs) = elim (get_elem? (chars printable) (c - 32)) [
  | none ↦ text_of cs
  | some a ↦ String.◌∷◌ a (text_of cs)
]

unfoldable pub slug : String → String
unfolding text_of slugify
slug s = text_of (slugify (codes s))

-- `bool(value)`, of an absent value too.
unfoldable pub is_true : Option Value → Bool
is_true none = false
is_true (some null) = false
is_true (some (boolean b)) = b
is_true (some (number n)) = not (n == 0)
is_true (some (text s)) = not (is_empty s)
is_true (some (array no_items)) = false
is_true (some (array (item _ _))) = true
is_true (some (dict empty)) = false
is_true (some (dict (entry _ _ _))) = true

unfoldable pub text_in : Option Value → Option String
text_in (some (text s)) = some s
text_in _ = none

unfoldable pub number_in : Option Value → Option ℕ
number_in (some (number n)) = some n
number_in _ = none

-- `d.get(k)` where a text is expected.
unfoldable pub text_at : String → Dict → Option String
unfolding get text_in
text_at k d = text_in (get k d)

abbrev pub or_else {ℓ} : {A : Type ℓ} → Option A → A → A
or_else none a = a
or_else (some b) a = b

-- `a or b`
abbrev pub text_else : Option String → String → String
text_else none b = b
text_else (some a) b = if is_empty a then b else a

abbrev pub items_of : Items → List Value
items_of no_items = []
items_of (item v vs) = v ∷ items_of vs

-- `value if isinstance(value, list) else None`
unfoldable pub list_in : Option Value → Option (List Value)
list_in (some (array vs)) = some (items_of vs)
list_in _ = none

unfoldable pub dict_in : Option Value → Option Dict
dict_in (some (dict d)) = some d
dict_in _ = none

unfoldable pub texts : List Value → List String
texts [] = []
texts (text s ∷ vs) = s ∷ texts vs
texts (_ ∷ vs) = texts vs

unfoldable pub dicts : List Value → List Dict
dicts [] = []
dicts (dict d ∷ vs) = d ∷ dicts vs
dicts (_ ∷ vs) = dicts vs

abbrev default_in : Option Value → RouteDefault
default_in (some (text s)) = named s
default_in (some (boolean true)) = on
default_in _ = off

-- An entry of `routes`, which the engine reads by these keys.
unfoldable pub route_in : Dict → Route
unfolding text_at
route_in d = record {
  when = text_at "when" d;
  goto = text_at "goto" d;
  then_goto = text_at "then" d;
  default = default_in (get "default" d);
}

-- The dictionaries of a list, put together.
unfoldable pub merge : Dict → List Dict → Dict
unfolding update
merge d [] = d
merge d (e ∷ es) = merge (update d e) es

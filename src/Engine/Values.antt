-- ===== src/Engine/Values.antt =====
-- The values of a step's outputs (`dict[str, Any]`), as JSON-like data, and the dictionary
-- operations of the evaluation context: item assignment, `update`, `setdefault` and lookup.
use Prim.Native.Nat.{ℕ}
use nexus_arc.Base.{
  ◌≡◌, refl, arith, String, Bool, Option, none, some, str_eq, if◌then◌else◌, is_some, eq_iff,
}

mutual
  pub data Value : Type 0 where
    null : Value
    boolean : Bool → Value
    number : ℕ → Value
    text : String → Value
    array : Items → Value
    dict : Dict → Value

  pub data Items : Type 0 where
    no_items : Items
    item : Value → Items → Items

  pub data Dict : Type 0 where
    empty : Dict
    entry : String → Value → Dict → Dict

-- `d.get(k)`
unfoldable pub get : String → Dict → Option Value
get k empty = none
get k (entry j v d) = if str_eq j k then some v else get k d

-- `d[k] = v`: a key keeps its place.
unfoldable pub put : String → Value → Dict → Dict
put k v empty = entry k v empty
put k v (entry j w d) = if str_eq j k then entry k v d else entry j w (put k v d)

-- `d.update(e)`
unfoldable pub update : Dict → Dict → Dict
update d empty = d
update d (entry k v e) = update (put k v d) e

-- `d.setdefault(k, v)`
unfoldable pub setdefault : String → Value → Dict → Dict
unfolding get
setdefault k v d = if is_some (get k d) then d else put k v d

pub get-put :
    (k j : String) (v : Value) (d : Dict)
    → get j (put k v d) ≡ (if str_eq k j then some v else get j d)
unfolding get put
get-put k j v empty = refl
get-put k j v (entry i w d) = ground (arith, eq_iff k j, eq_iff i k, eq_iff i j, get-put k j v d)

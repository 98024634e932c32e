-- ===== src/Loader/Named.antt =====
-- The step of an id and the reference of a route, described beside `by_id` and `route_ref`.
use nexus_arc.Base.{
  String, Bool, true, false, ◌≡◌, refl, ap, subst, ◌∙◌, inl, inr, Option, none, some, List, [], ◌∷◌,
  any, truthy, str_eq, is_empty, arith, Bool-cases, Option-cases, if◌then◌else◌,
}
use nexus_arc.Engine.Values.{Value, null, boolean, number, text, array, dict, Dict, get}
use nexus_arc.Loader.Fields.{text_at, list_in, or_else, dicts}
use nexus_arc.Loader.Resolve.{by_id, route_ref}
use nexus_arc.Loader.NextAgents.{has_text}

-- The step of `steps` with the id: of several the last.
pub data Named (id : String) : List Dict → Dict → Type 0 where
  last_named :
      {d : Dict} {ds : List Dict}
      → has_text "id" id d ≡ true
      → any (has_text "id" id) ds ≡ false
      → Named id (d ∷ ds) d
  later : {d t : Dict} {ds : List Dict} → Named id ds t → Named id (d ∷ ds) t

pub by_id_missing :
    (id : String) (ds : List Dict) → by_id id ds ≡ none → any (has_text "id" id) ds ≡ false
unfolding by_id
by_id_missing id [] h = refl
by_id_missing id (d ∷ ds) h = elim (Option-cases (by_id id ds)) [
  | inr (u, found) ↦ absurd (cc (rw (found, by_id) at h))
  | inl gone ↦ elim (Option-cases (text_at "id" d)) [
    | inl e ↦ rw e (by_id_missing id ds gone)
    | inr (k, e) ↦ elim (Bool-cases (str_eq k id)) [
      | inl same ↦ absurd (cc (rw (gone, e, same, by_id) at h))
      | inr other ↦ rw (e, other) (by_id_missing id ds gone)
    ]
  ]
]

pub by_id-Named : (id : String) (ds : List Dict) {t : Dict} → by_id id ds ≡ some t → Named id ds t
unfolding by_id
by_id-Named id [] h = absurd (cc h)
by_id-Named id (d ∷ ds) {t} h = elim (Option-cases (by_id id ds)) [
  | inr (u, found) ↦ later (by_id-Named id ds (found ∙ (rw (found, by_id) at h)))
  | inl gone ↦ elim (Option-cases (text_at "id" d)) [
    | inl e ↦ absurd (cc (rw (gone, e, by_id) at h))
    | inr (k, e) ↦ elim (Bool-cases (str_eq k id)) [
      | inr other ↦ absurd (cc (rw (gone, e, other, by_id) at h))
      | inl same ↦
          let is_d : some d ≡ some t = rw (gone, e, same, by_id) at h in
          subst (Named id (d ∷ ds)) (cc is_d)
            (last_named (rw (e, same) refl) (by_id_missing id ds gone))
    ]
  ]
]

pub missing-by_id :
    (id : String) (ds : List Dict) → any (has_text "id" id) ds ≡ false → by_id id ds ≡ none
unfolding by_id
missing-by_id id [] h = refl
missing-by_id id (d ∷ ds) h =
    let gone = missing-by_id id ds (ground (arith, h)) in
    elim (Option-cases (text_at "id" d)) [
      | inl e ↦ rw (gone, e, by_id) refl
      | inr (k, e) ↦ elim (Bool-cases (str_eq k id)) [
        | inl same ↦ absurd (cc (rw (e, same) at h))
        | inr other ↦ rw (gone, e, other, by_id) refl
      ]
    ]

pub Named-by_id : {id : String} (ds : List Dict) {t : Dict} → Named id ds t → by_id id ds ≡ some t
unfolding by_id
Named-by_id [] n = elim n [ ]
Named-by_id {id} (d ∷ ds) (last_named this no_later) =
    let gone = missing-by_id id ds no_later in
    elim (Option-cases (text_at "id" d)) [
      | inl e ↦ absurd (cc (rw e at this))
      | inr (k, e) ↦ rw (gone, e, rw e at this, by_id) refl
    ]
Named-by_id (d ∷ ds) (later n) = rw (Named-by_id ds n, by_id) refl

abbrev pub is_router : Dict → Bool
is_router t = str_eq (or_else (text_at "agent_type" t) "") "router"

abbrev pub routes_of : Dict → List Dict
routes_of router = dicts (or_else (list_in (get "routes" router)) [])

-- What a route of a router refers to: its `then`, and else its `default`.
pub data Ref (r : Dict) : String → Type 0 where
  by_then : {ref : String} → text_at "then" r ≡ some ref → is_empty ref ≡ false → Ref r ref
  by_default :
      {ref : String}
      → truthy (text_at "then" r) ≡ false
      → get "default" r ≡ some (text ref)
      → is_empty ref ≡ false
      → Ref r ref
  by_flag : truthy (text_at "then" r) ≡ false → get "default" r ≡ some (boolean true) → Ref r "True"

pub route_ref-Ref :
    (r : Dict) {ref : String} → route_ref r ≡ some ref → is_empty ref ≡ false → Ref r ref
unfolding route_ref text_at
route_ref-Ref r {ref} h full = elim (Bool-cases (truthy (text_at "then" r))) [
  | inl e ↦ by_then (rw (e, route_ref) at h) full
  | inr e ↦ of_default e (get "default" r) refl (rw (e, route_ref) at h)
]
  where
    of_default :
        truthy (text_at "then" r) ≡ false
        → (o : Option Value) → get "default" r ≡ o
        → (elim o [
          | some (text s) ↦ some s
          | some (boolean b) ↦ if b then some "True" else none
          | _ ↦ none
        ])
          ≡ some ref
        → Ref r ref
    of_default e none is_o h = absurd (cc h)
    of_default e (some null) is_o h = absurd (cc h)
    of_default e (some (number n)) is_o h = absurd (cc h)
    of_default e (some (array vs)) is_o h = absurd (cc h)
    of_default e (some (dict d)) is_o h = absurd (cc h)
    of_default e (some (text s)) is_o h =
        let same : s ≡ ref = cc h in by_default e (is_o ∙ ap (λ x. some (text x)) same) full
    of_default e (some (boolean false)) is_o h = absurd (cc h)
    of_default e (some (boolean true)) is_o h =
        let same : "True" ≡ ref = cc h in subst (Ref r) same (by_flag e is_o)

pub Ref-route_ref : (r : Dict) {ref : String} → Ref r ref → route_ref r ≡ some ref
unfolding route_ref text_at
Ref-route_ref r (by_then e full) = rw (e, full, route_ref) refl
Ref-route_ref r (by_default e is_o full) = rw (e, is_o, route_ref) refl
Ref-route_ref r (by_flag e is_o) = rw (e, is_o, route_ref) refl

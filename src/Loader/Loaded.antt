-- ===== src/Loader/Loaded.antt =====
-- What the loader makes of a definition: the numbers, the state and the tools of its steps, and the
-- errors.
use nexus_arc.Base.{
  ℕ, suc, String, true, ◌||◌, ◌≡◌, refl, sym, ap, subst, inl, inr, Option, none, some, List, [],
  ◌∷◌, all, not, ◌&&◌, All-get_elem?, mem_text, str_eq, Bool-cases, if◌then◌else◌, is_empty,
}
use nexus_arc.Engine.Values.{Value, dict, Dict, get}
use nexus_arc.Engine.Model.{Step, Workflow, step_at}
use nexus_arc.Engine.Gates.{Policy, apply_approval_gates}
use nexus_arc.Engine.Reach.{IsFresh, gated_pending}
use nexus_arc.StatePlugin.Numbered.{IsNumbered, InOrder-IsNumbered, gates-IsNumbered, step_at-gates}
use nexus_arc.Loader.Fields.{list_in, texts, or_else}
use nexus_arc.Loader.Build.{
  is_text, no_text, name_value, id_raises, no_attribute, Loaded, loaded, invalid, LoadError,
  step_not_dict, no_id, no_steps, add_comment, build_step, build_workflow_steps, Overrides,
  resolved_id, make_workflow, from_steps, from_dict,
}
use nexus_arc.Loader.Built.{
  HasTools, Loaded-cases, allowed_by, build_workflow_steps-InOrder, build_workflow_steps-HasTools,
}

abbrev pub error_of {ℓ} : {A : Type ℓ} → Loaded A → Option LoadError
error_of (loaded a) = none
error_of (invalid e) = some e

-- What is wrong with an item: it is no dictionary; an entry of its `parallel` is no text; or what
-- names it is neither a text nor false.
abbrev pub bad_item : ℕ → Value → Option LoadError
bad_item idx (dict d) =
    if all is_text (or_else (list_in (get "parallel" d)) []) && not (no_text (name_value d))
    then none
    else some no_attribute
bad_item idx _ = some (step_not_dict idx)

abbrev pub first_of {ℓ} : {A : Type ℓ} → Option A → Option A → Option A
first_of none later = later
first_of (some a) later = some a

-- What is wrong with the first bad item, from a number on.
abbrev pub first_bad : ℕ → List Value → Option LoadError
first_bad idx [] = none
first_bad idx (v ∷ vs) = first_of (bad_item idx v) (first_bad (suc idx) vs)

abbrev pub refused_steps : List Value → Option LoadError
refused_steps [] = some no_steps
refused_steps (v ∷ vs) = first_bad 1 (v ∷ vs)

abbrev after_item : (Value → Option ℕ) → Dict → ℕ → Dict → Loaded (List Step) → Loaded (List Step)
after_item float_ms data' idx d (invalid e) = invalid e
after_item float_ms data' idx d (loaded ss) = loaded (build_step float_ms data' idx d ∷ ss)

module _ (float_ms : Value → Option ℕ) (resolve_steps : Dict → List Value) (policy : Policy)
    (now : ℕ) (o : Overrides) (data' : Dict) where
  -- A workflow comes from built steps.
  pub from_dict-loaded :
      {w : Workflow}
      → from_dict float_ms resolve_steps policy now o data' ≡ loaded w
      → (ss : List Step) × (build_workflow_steps float_ms data' (resolve_steps data') ≡ loaded ss)
        × (w ≡ apply_approval_gates policy (make_workflow now o data' ss))
  unfolding from_dict
  from_dict-loaded {w} e = elim (Bool-cases (id_raises o data')) [
    | inl raises ↦ absurd (cc (rw (raises, from_dict) at e))
    | inr slugs ↦ elim (Bool-cases (is_empty (resolved_id o data'))) [
      | inl anonymous ↦ absurd (cc (rw (slugs, anonymous, from_dict) at e))
      | inr named ↦ go (resolve_steps data') (rw (slugs, named, from_dict) at e)
    ]
  ]
    where
      go :
          (vs : List Value)
          → from_steps float_ms policy now o data' vs ≡ loaded w
          → (ss : List Step) × (build_workflow_steps float_ms data' vs ≡ loaded ss)
            × (w ≡ apply_approval_gates policy (make_workflow now o data' ss))
      go [] e = absurd (cc e)
      go (v ∷ vs) e = elim (Loaded-cases (build_workflow_steps float_ms data' (v ∷ vs))) [
        | inl (x, h) ↦ absurd (cc (rw (h, from_steps) at e))
        | inr (ss, h) ↦
            let made : loaded (apply_approval_gates policy (make_workflow now o data' ss))
                ≡ loaded w =
              rw (h, from_steps) at e in
            (ss, h, cc made)
      ]

  -- Every loaded workflow is one that was not executed yet, and numbers its steps apart.
  pub from_dict-IsFresh :
      {w : Workflow}
      → from_dict float_ms resolve_steps policy now o data' ≡ loaded w
      → IsFresh w × IsNumbered w
  unfolding make_workflow
  from_dict-IsFresh {w} e =
      let (ss, built, is_w) = from_dict-loaded e in
      let (all_pending, in_order) =
        build_workflow_steps-InOrder float_ms data' (resolve_steps data') built in
      subst (λ x. IsFresh x × IsNumbered x) (sym is_w)
        (
          record {
            not_over = unfold apply_approval_gates in refl;
            all_pending = gated_pending policy (make_workflow now o data' ss) all_pending;
          },
          gates-IsNumbered policy (make_workflow now o data' ss)
              (InOrder-IsNumbered 1 (make_workflow now o data' ss) in_order),
        )

  -- No step of a loaded workflow may use a tool that is not on the list `allowed_tools` of the definition, where
  -- that has such a list, but the tool for comments.
  pub from_dict-allowed_tools :
      {w : Workflow} (vs : List Value) (i : ℕ) (s : Step) (t : String)
      → from_dict float_ms resolve_steps policy now o data' ≡ loaded w
      → list_in (get "allowed_tools" data') ≡ some vs
      → step_at w i ≡ some s
      → mem_text t s.agent.allowed_tools ≡ true
      → (mem_text t (texts vs) || str_eq t add_comment) ≡ true
  unfolding make_workflow
  from_dict-allowed_tools {w} vs i s t e listed there may_use =
      let (ss, built, is_w) = from_dict-loaded e in
      let (s', in_ss, same) =
        step_at-gates policy (make_workflow now o data' ss) i
          (subst (λ x. step_at x i ≡ some s) is_w there) in
      let agents : s.agent ≡ s'.agent = ap (λ x. x.agent) same in
      let has_tools =
        All-get_elem? (HasTools float_ms data') ss i
          (build_workflow_steps-HasTools float_ms data' (resolve_steps data') built) in_ss t
          (subst (λ a. mem_text t a.allowed_tools ≡ true) agents may_use) in
      subst (λ l. (allowed_by l t || str_eq t add_comment) ≡ true) listed has_tools

  abbrev pub refusal : Option LoadError
  refusal =
      let anonymous =
        if is_empty (resolved_id o data')
        then some no_id
        else refused_steps (resolve_steps data') in
      if id_raises o data' then some no_attribute else anonymous

-- ===== src/Loader/Built.antt =====
-- What build_workflow_steps makes of the steps of a definition: their numbers and their tools.
use nexus_arc.Base.{
  ℕ, suc, String, Bool, true, ◌&&◌, ◌||◌, ◌≡◌, ◌⊎◌, refl, ap, ◌∙◌, subst, inl, inr, Option, none,
  some, List, [], ◌∷◌, ◌++◌, All, keep, mem_text, str_eq, str_eq→eq, arith, Bool-cases,
  Option-cases, Bool-cases, if◌then◌else◌,
}
use nexus_arc.Engine.Values.{Value, null, boolean, number, text, array, dict, Dict, get}
use nexus_arc.Engine.Model.{Step}
use nexus_arc.Engine.Reach.{IsPendingStep}
use nexus_arc.StatePlugin.Numbered.{InOrder}
use nexus_arc.Loader.Fields.{list_in, texts, or_else}
use nexus_arc.Loader.Build.{
  Loaded, loaded, invalid, LoadError, add_comment, combined_tools, build_agent, build_step,
  slug_raises, build_steps_from, build_workflow_steps,
}

pub Loaded-cases {ℓ} :
    {A : Type ℓ} (r : Loaded A) → ((e : LoadError) × (r ≡ invalid e)) ⊎ ((a : A) × (r ≡ loaded a))
Loaded-cases (invalid e) = inl (e, refl)
Loaded-cases (loaded a) = inr (a, refl)

-- Whether the tool is on the workflow's list, if there is one.
abbrev pub allowed_by : Option (List Value) → String → Bool
allowed_by none t = true
allowed_by (some vs) t = mem_text t (texts vs)

abbrev pub is_allowed : Dict → String → Bool
is_allowed data' t = allowed_by (list_in (get "allowed_tools" data')) t

-- The step requests the tool.
abbrev pub requests : Dict → String → Bool
requests d t = mem_text t (texts (or_else (list_in (get "tools" d)) []))

mem_text-keep :
    (t : String) (allowed ts : List String)
    → mem_text t (keep (λ x. mem_text x allowed) ts) ≡ (mem_text t ts && mem_text t allowed)
unfolding mem_text
mem_text-keep t allowed [] = refl
mem_text-keep t allowed (x ∷ ts) = ground (arith, mem_text-keep t allowed ts, str_eq→eq t x)

mem_text-snoc :
    (t u : String) (ts : List String) → mem_text t (ts ++ u ∷ []) ≡ (mem_text t ts || str_eq t u)
unfolding mem_text
mem_text-snoc t u [] = ground arith
mem_text-snoc t u (x ∷ ts) = ground (arith, mem_text-snoc t u ts)

mem_text-same :
    (t u : String) (ts : List String) → str_eq t u ≡ true → mem_text t ts ≡ mem_text u ts
mem_text-same t u ts e = ap (λ x. mem_text x ts) (str_eq→eq t u e)

mem_text-with_comment :
    (t u : String) (ts : List String)
    → mem_text t (if mem_text u ts then ts else ts ++ u ∷ []) ≡ (mem_text t ts || str_eq t u)
mem_text-with_comment t u ts = elim (Bool-cases (mem_text u ts)) [
  | inr new ↦ rw new (mem_text-snoc t u ts)
  | inl old ↦ rw old (ground (arith, mem_text-same t u ts, old))
]

-- The tools of a built step are those that it requests and that are allowed, and the one for comments.
pub mem_text-combined_tools :
    (data' d : Dict) (t : String)
    → mem_text t (combined_tools data' d)
      ≡ ((requests d t && is_allowed data' t) || str_eq t add_comment)
unfolding combined_tools
mem_text-combined_tools data' d t = elim (Option-cases (list_in (get "allowed_tools" data'))) [
  | inl e ↦
      rw (e, combined_tools)
        (mem_text-with_comment t add_comment (texts (or_else (list_in (get "tools" d)) []))
          ∙ ground arith)
  | inr (vs, e) ↦
      rw (e, combined_tools)
        (mem_text-with_comment t add_comment
            (keep (λ x. mem_text x (texts vs)) (texts (or_else (list_in (get "tools" d)) [])))
          ∙ ap (λ b. b || str_eq t add_comment)
              (mem_text-keep t (texts vs) (texts (or_else (list_in (get "tools" d)) []))))
]

module _ (float_ms : Value → Option ℕ) (data' : Dict) where
  -- What holds of every built step holds of the steps of the list.
  pub built_steps {ℓ} :
      (P : Step → Type ℓ) (idx : ℕ) (vs : List Value) {ss : List Step}
      → ((k : ℕ) (d : Dict) → P (build_step float_ms data' k d))
      → build_steps_from float_ms data' idx vs ≡ loaded ss
      → All P ss × InOrder idx ss
  unfolding build_steps_from
  built_steps P idx [] {ss} every e = go ss (cc e)
    where
      go : (ss : List Step) → [] ≡ ss → All P ss × InOrder idx ss
      go [] h = (tt, tt)
      go (s ∷ ss) h = absurd (cc h)
  built_steps P idx (dict d ∷ vs) {ss} every e = elim (Bool-cases (slug_raises d)) [
    | inl raises ↦ absurd (cc (rw (raises, build_steps_from) at e))
    | inr slugs ↦ elim (Loaded-cases (build_steps_from float_ms data' (suc idx) vs)) [
      | inl (x, h) ↦ absurd (cc (rw (slugs, h, build_steps_from) at e))
      | inr (us, h) ↦
          go us (rw (slugs, h, build_steps_from) at e) (built_steps P (suc idx) vs every h)
    ]
  ]
    where
      go :
          (us : List Step)
          → loaded (build_step float_ms data' idx d ∷ us) ≡ loaded ss
          → All P us × InOrder (suc idx) us
          → All P ss × InOrder idx ss
      go us h (a, o) =
          let is_ss : build_step float_ms data' idx d ∷ us ≡ ss = cc h in
          subst (λ x. All P x × InOrder idx x) is_ss
            ((every idx d, a), (unfold build_step in refl, o))
  built_steps P idx (null ∷ vs) every e = absurd (cc e)
  built_steps P idx (boolean _ ∷ vs) every e = absurd (cc e)
  built_steps P idx (number _ ∷ vs) every e = absurd (cc e)
  built_steps P idx (text _ ∷ vs) every e = absurd (cc e)
  built_steps P idx (array _ ∷ vs) every e = absurd (cc e)

  pub build_workflow_steps-InOrder :
      (vs : List Value) {ss : List Step}
      → build_workflow_steps float_ms data' vs ≡ loaded ss
      → All IsPendingStep ss × InOrder 1 ss
  unfolding build_workflow_steps build_step
  build_workflow_steps-InOrder vs e = built_steps IsPendingStep 1 vs (λ k d. (refl, refl)) e

  abbrev pub HasTools : Step → Type 0
  HasTools s =
      (t : String)
      → mem_text t s.agent.allowed_tools ≡ true
      → (is_allowed data' t || str_eq t add_comment) ≡ true

  pub build_workflow_steps-HasTools :
      (vs : List Value) {ss : List Step}
      → build_workflow_steps float_ms data' vs ≡ loaded ss
      → All HasTools ss
  unfolding build_workflow_steps build_step build_agent
  build_workflow_steps-HasTools vs e =
      (built_steps HasTools 1 vs (λ k d t h. ground (arith, mem_text-combined_tools data' d t, h))
        e).0

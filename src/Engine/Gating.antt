-- ===== src/Engine/Gating.antt =====
-- `apply_approval_gates` of nexus/core/models.py and the gates that it leaves.
use nexus_arc.Base.{
  ◌≡◌, refl, ◌∙◌, ap, sym, arith, true, false, String, Bool, not, ◌&&◌, ◌||◌, ◌⊎◌, List, [], ◌∷◌,
  ◌++◌, map, if◌then◌else◌, any, All, All-map, All-of, Bool-cases, inl, inr,
}
use nexus_arc.Engine.Model.{Gate, GateType, pr_merge, custom, Step, Workflow}
use nexus_arc.Engine.Gates.{
  Policy, same_type, has_approval_gate, add_gate, pr_merge_gate, human_approval_gate,
  merge_gate_step, needs_approval, human_gate_step, apply_approval_gates, check_pr_merge_allowed,
}
use nexus_arc.Engine.World.{World}

any-append :
    (p : Gate → Bool) (xs : List Gate) (g : Gate) → any p (xs ++ g ∷ []) ≡ (any p xs || p g)
any-append p [] g = ground arith
any-append p (x ∷ xs) g = ground (arith, any-append p xs g)

has_approval_gate-add_gate :
    (s : Step) (g : Gate) (t : GateType)
    → has_approval_gate (add_gate g s) t
      ≡ (has_approval_gate s t || (same_type g.gate_type t && g.required))
unfolding has_approval_gate add_gate
has_approval_gate-add_gate s g t =
    any-append (λ h. same_type h.gate_type t && h.required) s.approval_gates g

module _ (policy : Policy) (names : List String) where
  merged : (s : Step) → has_approval_gate (merge_gate_step policy s) pr_merge ≡ true
  unfolding merge_gate_step pr_merge_gate
  merged s =
      ground (arith, has_approval_gate-add_gate s (pr_merge_gate policy.merge_message) pr_merge)

  -- The second loop adds no merge gate, and needs no other step for it.
  human_keeps_merge :
      (s : Step)
      → has_approval_gate (human_gate_step policy names s) pr_merge ≡ has_approval_gate s pr_merge
  unfolding human_gate_step human_approval_gate
  human_keeps_merge s =
      ground
        (arith, has_approval_gate-add_gate s (human_approval_gate policy.human_message) pr_merge)

  needs_same :
      (s : Step)
      → needs_approval policy names (human_gate_step policy names s) ≡ needs_approval policy names s
  unfolding human_gate_step needs_approval add_gate
  needs_same s = ground arith

  human_gated :
      (s : Step)
      → needs_approval policy names s ≡ true
      → has_approval_gate (human_gate_step policy names s) custom ≡ true
  unfolding human_gate_step human_approval_gate
  human_gated s h =
      ground (arith, has_approval_gate-add_gate s (human_approval_gate policy.human_message) custom)

  merge_fixed : (s : Step) → has_approval_gate s pr_merge ≡ true → merge_gate_step policy s ≡ s
  unfolding merge_gate_step
  merge_fixed s h = rw h

  human_fixed :
      (s : Step)
      → (has_approval_gate s custom ≡ true) ⊎ (needs_approval policy names s ≡ false)
      → human_gate_step policy names s ≡ s
  unfolding human_gate_step
  human_fixed s h = ground arith

  human_idem :
      (s : Step)
      → human_gate_step policy names (human_gate_step policy names s)
        ≡ human_gate_step policy names s
  human_idem s = elim (Bool-cases (needs_approval policy names s)) [
    | inl need ↦ human_fixed (human_gate_step policy names s) (inl (human_gated s need))
    | inr free ↦ human_fixed (human_gate_step policy names s) (inr (needs_same s ∙ free))
  ]

  gated_step : Bool → Step → Step
  gated_step merge s = human_gate_step policy names (if merge then merge_gate_step policy s else s)

  -- A step on which both loops have left their gates is not changed by them.
  gated_step_idem :
      (merge : Bool) (s : Step) → gated_step merge (gated_step merge s) ≡ gated_step merge s
  unfolding gated_step
  gated_step_idem false s = human_idem s
  gated_step_idem true s =
      let t = merge_gate_step policy s in
      let has : has_approval_gate (human_gate_step policy names t) pr_merge ≡ true =
        human_keeps_merge t ∙ merged s in
      ap (human_gate_step policy names) (merge_fixed (human_gate_step policy names t) has)
      ∙ human_idem t

  gated_step_guards :
      (merge : Bool) (s : Step)
      → ((not merge || not (check_pr_merge_allowed (gated_step merge s))) ≡ true)
        × ((not (needs_approval policy names (gated_step merge s))
              || has_approval_gate (gated_step merge s) custom)
            ≡ true)
  unfolding gated_step check_pr_merge_allowed
  gated_step_guards merge s =
      let t = if merge then merge_gate_step policy s else s in
      (
        ground (arith, human_keeps_merge (merge_gate_step policy s), merged s),
        ground (arith, needs_same t, human_gated t),
      )

module _ (policy : Policy) (names : List String) where
  gated : Bool → List Step → List Step
  gated merge ss =
      map (human_gate_step policy names) (if merge then map (merge_gate_step policy) ss else ss)

  gated-eq-map :
      (merge : Bool) (ss : List Step) → gated merge ss ≡ map (gated_step policy names merge) ss
  unfolding gated gated_step
  gated-eq-map false ss = refl
  gated-eq-map true [] = refl
  gated-eq-map true (s ∷ ss) =
      ap (◌∷◌ (human_gate_step policy names (merge_gate_step policy s))) (gated-eq-map true ss)

  map_idem :
      (merge : Bool) (ss : List Step)
      → map (gated_step policy names merge) (map (gated_step policy names merge) ss)
        ≡ map (gated_step policy names merge) ss
  map_idem merge [] = refl
  map_idem merge (s ∷ ss) = rw (gated_step_idem policy names merge s, map_idem merge ss)

-- The two loops as one pass over the steps.
apply-eq-map :
    (policy : Policy) (w : Workflow)
    → apply_approval_gates policy w ≡ record w {
      steps = map (gated_step policy w.require_approval_for w.require_human_merge_approval) w.steps;
    }
unfolding apply_approval_gates gated
apply-eq-map policy w =
    ap (λ ss. record w { steps = ss })
      (gated-eq-map policy w.require_approval_for w.require_human_merge_approval w.steps)

-- To apply the gates a second time changes nothing.
pub apply_approval_gates_idem :
    (policy : Policy) (w : Workflow)
    → apply_approval_gates policy (apply_approval_gates policy w) ≡ apply_approval_gates policy w
apply_approval_gates_idem policy w =
    let g = gated_step policy w.require_approval_for w.require_human_merge_approval in
    let e = apply-eq-map policy w in
    ap (apply_approval_gates policy) e
    ∙ apply-eq-map policy (record w { steps = map g w.steps })
    ∙ ap (λ ss. record w { steps = ss })
        (map_idem policy w.require_approval_for w.require_human_merge_approval w.steps)
    ∙ sym e

-- After the gates are applied every step has a required gate for merging, if the workflow asks for
-- human approval of merges, and no step is allowed to merge; and a step that needs approval (by the
-- strict setting, by its name or number in the list, or by its own flag) has a required custom gate.
pub apply_approval_gates_guards :
    (policy : Policy) (w : Workflow)
    → All
        (λ s.
          ((not w.require_human_merge_approval || not (check_pr_merge_allowed s)) ≡ true)
          × ((not (needs_approval policy w.require_approval_for s) || has_approval_gate s custom)
              ≡ true))
        (apply_approval_gates policy w).steps
apply_approval_gates_guards policy w =
    let names = w.require_approval_for in
    let merge = w.require_human_merge_approval in
    rw (apply-eq-map policy w) (
      All-map _ (gated_step policy names merge) w.steps
        (All-of _ w.steps (gated_step_guards policy names merge)))

-- The gates that every step of a loaded workflow has, the setting of strict approvals given.
abbrev pub loaded_gates : Policy → List Gate
loaded_gates policy =
    if policy.strict_approvals then human_approval_gate policy.human_message ∷ [] else []

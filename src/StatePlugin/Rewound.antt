-- ===== src/StatePlugin/Rewound.antt =====
-- A rewound workflow.
use nexus_arc.Base.{
  ℕ, zero, suc, ◌≤◌, ◌≡◌, ◌≢◌, refl, sym, ap, ◌∙◌, String, some, List, [], ◌∷◌, get_elem?,
  get_elem?-map, All, All-get_elem?, arith,
}
use nexus_arc.Engine.Model.{Step, StepStatus, Workflow, WorkflowState, step_at, is_complete}
use nexus_arc.Engine.Gates.{Policy, apply_approval_gates}
use nexus_arc.Engine.World.{World, load, save_workflow}
use nexus_arc.Engine.Invariant.{Inv}
use nexus_arc.StatePlugin.Manual.{rewind, rewound}
use nexus_arc.StatePlugin.Numbered.{IsNumbered, step_at-gates, gates-IsNumbered}
use nexus_arc.StatePlugin.Sound.{IsSound, store_at-IsSound}

All-of_get {ℓ κ} :
    {A : Type ℓ} (P : A → Type κ) (xs : List A)
    → ((i : ℕ) (x : A) → get_elem? xs i ≡ some x → P x)
    → All P xs
All-of_get P [] h = tt
All-of_get P (x ∷ xs) h = (h zero x refl, All-of_get P xs (λ i y e. h (suc i) y e))

module _ (now target : ℕ) where
  rewind_kept :
      (s : Step)
      → ((rewind now target s).step_num ≡ s.step_num)
        × ((rewind now target s).iteration ≤ s.iteration)
  unfolding rewind
  rewind_kept s = ground arith

  rewind_running :
      (s : Step) → (rewind now target s).status ≡ StepStatus.running → s.step_num ≡ target
  unfolding rewind
  rewind_running s h = ground (arith, h)

  rewound-IsNumbered : (w : Workflow) → IsNumbered w → IsNumbered (rewound now target w)
  unfolding rewound
  rewound-IsNumbered w numbered i j s t a b e =
      let (s', a', p) = get_elem?-map (rewind now target) w.steps i a in
      let (t', b', q) = get_elem?-map (rewind now target) w.steps j b in
      numbered i j s' t' a' b' (
        sym (rewind_kept s').0
        ∙ sym (ap (λ x. x.step_num) p)
        ∙ e
        ∙ ap (λ x. x.step_num) q
        ∙ (rewind_kept t').0)

  module _ (limit : ℕ) (policy : Policy) (v : Workflow) (inv : Inv limit v)
      (numbered : IsNumbered v) where
    abbrev gated : Workflow
    gated = apply_approval_gates policy v

    bounded_at :
        (i : ℕ) (s : Step) → step_at (rewound now target gated) i ≡ some s → s.iteration ≤ limit
    unfolding rewound
    bounded_at i s at_i =
        let (g, at_g, p) = get_elem?-map (rewind now target) gated.steps i at_i in
        let (t, at_t, q) = step_at-gates policy v i at_g in
        let within : t.iteration ≤ limit =
          All-get_elem? (λ x. x.iteration ≤ limit) v.steps i inv.bounded at_t in
        omega (arith, within, (rewind_kept g).1, ap (λ x. x.iteration) p, ap (λ x. x.iteration) q)

    running_at :
        (i : ℕ) (s : Step)
        → step_at (rewound now target gated) i ≡ some s
        → s.status ≡ StepStatus.running
        → (g : Step) × (step_at gated i ≡ some g) × (g.step_num ≡ target) × (s.step_num ≡ target)
    unfolding rewound
    running_at i s at_i runs =
        let (g, at_g, p) = get_elem?-map (rewind now target) gated.steps i at_i in
        let num = rewind_running g (sym (ap (λ x. x.status) p) ∙ runs) in
        (g, at_g, num, ap (λ x. x.step_num) p ∙ (rewind_kept g).0 ∙ num)

    -- A rewound workflow meets the invariant: the target is its only running step.
    rewound-Inv : Inv limit (rewound now target gated)
    rewound-Inv = record {
      bounded = All-of_get (λ x. x.iteration ≤ limit) (rewound now target gated).steps bounded_at;
      timed = unfold rewound is_complete in refl;
      alone = λ i j s t a b r q.
          let (g, at_g, num, _) = running_at i s a r in
          let (h, at_h, num', _) = running_at j t b q in
          gates-IsNumbered policy v numbered i j g h at_g at_h (num ∙ sym num');
      current = λ i s a r.
          let (g, at_g, num, num') = running_at i s a r in num' ∙ (unfold rewound in refl);
      idle = λ e. absurd (begun e);
    }
      where
        begun : (rewound now target gated).state ≢ WorkflowState.pending
        begun = unfold rewound in λ e. cc

-- A loaded workflow that is saved rewound.
pub reset-IsSound :
    (limit now target : ℕ) (policy : Policy) (v : Workflow) (world : World) (id : String)
    → load id world.store ≡ some v
    → IsSound limit world.store
    → IsSound limit (save_workflow (rewound now target (apply_approval_gates policy v)) world).store
unfolding save_workflow
reset-IsSound limit now target policy v world id found sound =
    let numbered = sound.numbered id v found in
    store_at-IsSound limit (rewound now target (apply_approval_gates policy v)) world.store
      (rewound-Inv now target limit policy v (sound.valid.sound id v found) numbered)
      (rewound-IsNumbered now target (apply_approval_gates policy v)
        (gates-IsNumbered policy v numbered))
      sound

-- ===== src/StatePlugin/Sound.antt =====
-- Storages in which every workflow is valid and numbers its steps apart, under the calls of the engine
-- and under reports.
use nexus_arc.Base.{
  ℕ, String, ◌≡◌, sym, subst, ap, ◌∙◌, inl, inr, Option, some, Option-cases, Bool-cases, str_eq,
  arith,
}
use nexus_arc.Engine.Serde.{written}
use nexus_arc.Engine.Values.{Dict}
use nexus_arc.Engine.Model.{Step, StepStatus, Workflow, step_at, get_step}
use nexus_arc.Engine.Gates.{Policy, apply_approval_gates}
use nexus_arc.Engine.World.{Engine, World, Store, load, load-store_at, store_at, save_workflow}
use nexus_arc.Engine.Control.{ok, create_workflow, audit_in}
use nexus_arc.Engine.Calls.{Call, complete, perform, perform_missing, load-perform}
use nexus_arc.Engine.Invariant.{Inv}
use nexus_arc.Engine.Lifecycle.{perform-Follows}
use nexus_arc.Engine.Reach.{
  IsValid, Reports, IsFresh, here, next, called, Reach-IsValid, store_at-IsValid, create-Inv,
}
use nexus_arc.StatePlugin.Numbered.{
  IsNumbered, definitions-IsNumbered, written-IsNumbered, gates-IsNumbered, step_at-gates,
  get_step-IsNumbered,
}

pub record IsSound (limit : ℕ) (store : Store) : Type 0 where
  pub valid : IsValid limit store
  pub numbered : (k : String) (w : Workflow) → load k store ≡ some w → IsNumbered w

-- A call on a workflow that succeeds found it.
pub perform_found :
    (engine : Engine) (now : ℕ) (workflow_id : String) (call : Call) (world : World) {w : Workflow}
    {world' : World}
    → perform engine now workflow_id call world ≡ ok w world'
    → (v : Workflow) × (load workflow_id world.store ≡ some v)
perform_found engine now workflow_id call world e =
    elim (Option-cases (load workflow_id world.store)) [
      | inl gone ↦ absurd (cc (perform_missing engine now workflow_id call world gone))
      | inr found ↦ found
    ]

-- A call of the engine keeps the storage sound.
pub perform-IsSound :
    (engine : Engine) (now : ℕ) (workflow_id : String) (call : Call) (world : World) {w : Workflow}
    {world' : World}
    → Reports engine now workflow_id call world
    → perform engine now workflow_id call world ≡ ok w world'
    → IsSound engine.max_loop_iterations world.store
    → IsSound engine.max_loop_iterations world'.store
perform-IsSound engine now id call world {w} {world'} reports e sound =
    let (v, found) = perform_found engine now id call world e in
    let follows = perform-Follows engine now id call world v w world' found e in
    record {
      valid =
          Reach-IsValid engine (next here (called now id call world w world' reports e))
            sound.valid;
      numbered = λ k u at_k. elim (Bool-cases (str_eq w.id k)) [
        | inl same ↦
            let is_w : some (written w) ≡ some u =
              rw (load-perform engine now id call world k e, same) at at_k in
            let is_u : written w ≡ u = cc is_w in
            subst IsNumbered is_u (
              written-IsNumbered w
                (definitions-IsNumbered v w follows.same_definitions (sound.numbered id v found)))
        | inr other ↦
            sound.numbered k u (rw (load-perform engine now id call world k e, other) at at_k)
      ];
    }

-- A running step of the workflow that is stored is the one that its number finds.
pub running-Reports :
    (engine : Engine) (now : ℕ) (workflow_id : String) (policy : Policy) (world : World)
    (v : Workflow) (i : ℕ) (s : Step) (outputs : Dict) (error : Option String)
    → load workflow_id world.store ≡ some v
    → IsNumbered v
    → step_at (apply_approval_gates policy v) i ≡ some s
    → s.status ≡ StepStatus.running
    → Reports engine now workflow_id (complete s.step_num outputs error) world
running-Reports engine now id policy world v i s outputs error found numbered there runs w j t
      found' got at_j =
    let (s', at_i, same) = step_at-gates policy v i there in
    let is_v : w ≡ v = ground (arith, found, found') in
    let num : s.step_num ≡ s'.step_num = ap (λ x. x.step_num) same in
    let same_t : t ≡ s' =
      get_step-IsNumbered v i j numbered at_i
        (subst (λ n. get_step v n ≡ some j) num
          (subst (λ x. get_step x s.step_num ≡ some j) is_v got))
        (subst (λ x. step_at x j ≡ some t) is_v at_j) in
    ap (λ x. x.status) same_t ∙ sym (ap (λ x. x.status) same) ∙ runs

-- To save a workflow that meets the invariant and numbers its steps apart keeps the storage sound.
pub store_at-IsSound :
    (limit : ℕ) (w : Workflow) (store : Store)
    → Inv limit w
    → IsNumbered w
    → IsSound limit store
    → IsSound limit (store_at w.id w store)
store_at-IsSound limit w store inv apart sound = record {
  valid = store_at-IsValid limit w store inv sound.valid;
  numbered = λ k u at_k. elim (Bool-cases (str_eq w.id k)) [
    | inl same ↦
        let is_w : some (written w) ≡ some u = rw (load-store_at w.id k w store, same) at at_k in
        let is_u : written w ≡ u = cc is_w in subst IsNumbered is_u (written-IsNumbered w apart)
    | inr other ↦ sound.numbered k u (rw (load-store_at w.id k w store, other) at at_k)
  ];
}

-- So does the creation of a workflow that was not executed yet.
pub create-IsSound :
    (engine : Engine) (policy : Policy) (now : ℕ) (w : Workflow) (world : World)
    → IsFresh w
    → IsNumbered w
    → IsSound engine.max_loop_iterations world.store
    → IsSound engine.max_loop_iterations (create_workflow policy now w world).1.store
unfolding create_workflow audit_in save_workflow
create-IsSound engine policy now w world fresh numbered sound =
    store_at-IsSound engine.max_loop_iterations (create_workflow policy now w world).0 world.store
      (create-Inv engine.max_loop_iterations policy now w world fresh)
      (gates-IsNumbered policy _ numbered) sound

-- ===== src/Engine/Reach.antt =====
-- The worlds that sequences of calls of the engine reach.
use nexus_arc.Base.{
  ℕ, ◌≤◌, ◌≡◌, ◌≢◌, ◌⊎◌, inl, inr, Option, none, some, List, [], arith, String, All, All-map,
  All-mono, All-get_elem?, if_ind, Option-cases, Bool-cases, sym, subst, str_eq, str_eq→eq,
}
use nexus_arc.Engine.Values.{Dict}
use nexus_arc.Engine.Model.{
  Step, StepStatus, Workflow, WorkflowState, step_at, is_complete, get_step,
}
use nexus_arc.Engine.Gates.{
  Policy, apply_approval_gates, human_gate_step, merge_gate_step, add_gate,
}
use nexus_arc.Engine.World.{Engine, World, Store, load, store_at, load-store_at, save_workflow}
use nexus_arc.Engine.Control.{audit_in, Result, ok, raise, create_workflow}
use nexus_arc.Engine.Complete.{complete_step, complete_at}
use nexus_arc.Engine.Completes.{CompletesResult, complete_at-Completes}
use nexus_arc.Engine.Stored.{Saves}
use nexus_arc.Engine.Cases.{complete_step_ind}
use nexus_arc.Engine.Calls.{
  Call, start, pause, resume, cancel, complete, perform, perform-Saves, perform_missing,
}
use nexus_arc.Engine.ControlInv.{InvResult, start-Inv, pause-Inv, resume-Inv, cancel-Inv}
use nexus_arc.Engine.Invariant.{Inv, Inv-RunsNone, Completes-Inv}
use nexus_arc.Engine.Serde.{written}
use nexus_arc.Engine.Written.{written-Inv}

-- Every stored workflow stands under its id and meets the invariant.
pub record IsValid (limit : ℕ) (store : Store) : Type 0 where
  pub keyed : (k : String) (w : Workflow) → load k store ≡ some w → w.id ≡ k
  pub sound : (k : String) (w : Workflow) → load k store ≡ some w → Inv limit w

module _ (engine : Engine) (now : ℕ) (workflow_id : String) where
  open engine use {max_loop_iterations as limit}

  -- Only the running step is reported as complete.
  abbrev pub Reports : Call → World → Type 0
  Reports (complete step_num outputs error) world =
      (w : Workflow) (i : ℕ) (s : Step)
      → load workflow_id world.store ≡ some w
      → get_step w step_num ≡ some i
      → step_at w i ≡ some s
      → s.status ≡ StepStatus.running
  Reports _ world = Unit {0}

  complete-Inv :
      (step_num : ℕ) (outputs : Dict) (error : Option String) (world : World) (w : Workflow)
      → load workflow_id world.store ≡ some w
      → Reports (complete step_num outputs error) world
      → Inv limit w
      → InvResult limit (complete_step engine now workflow_id step_num outputs error world)
  complete-Inv step_num outputs error world w found reports inv =
      complete_step_ind engine now workflow_id (InvResult limit) (λ e. tt) w world found step_num
        outputs error
        (λ i s g a.
          of_Completes i s (complete_at engine now workflow_id i s outputs error w world) a
            (reports w i s found g a)
            (complete_at-Completes engine now outputs error i s w workflow_id world))
    where
      of_Completes :
          (i : ℕ) (s : Step) (r : Result)
          → step_at w i ≡ some s
          → s.status ≡ StepStatus.running
          → CompletesResult engine now outputs error i s w r
          → InvResult limit r
      of_Completes i s (ok w' world') a runs c =
          Completes-Inv engine now outputs error i s w c a runs inv
      of_Completes i s (raise e) a runs c = tt

  perform-Inv :
      (call : Call) (world : World) (w : Workflow)
      → load workflow_id world.store ≡ some w
      → Reports call world
      → Inv limit w
      → InvResult limit (perform engine now workflow_id call world)
  unfolding perform
  perform-Inv start world w found reports inv = start-Inv engine now workflow_id w world found inv
  perform-Inv pause world w found reports inv = pause-Inv engine now workflow_id w world found inv
  perform-Inv resume world w found reports inv = resume-Inv engine now workflow_id w world found inv
  perform-Inv cancel world w found reports inv = cancel-Inv engine now workflow_id w world found inv
  perform-Inv (complete step_num outputs error) world w found reports inv =
      complete-Inv step_num outputs error world w found reports inv

pub store_at-IsValid :
    (limit : ℕ) (w : Workflow) (store : Store)
    → Inv limit w
    → IsValid limit store
    → IsValid limit (store_at w.id w store)
store_at-IsValid limit w store inv valid = record {
  keyed = λ k v e. elim (found_in k v e) [ inl h ↦ rw h.0 h.1 | inr old ↦ valid.keyed k v old ];
  sound = λ k v e. elim (found_in k v e) [
    | inl h ↦ rw h.0 (written-Inv w inv)
    | inr old ↦ valid.sound k v old
  ];
}
  where
    found_in :
        (k : String) (v : Workflow)
        → load k (store_at w.id w store) ≡ some v
        → (v ≡ written w) × (w.id ≡ k) ⊎ (load k store ≡ some v)
    found_in k v e = elim (Bool-cases (str_eq w.id k)) [
      | inl same ↦
          let is_w : some (written w) ≡ some v = rw (load-store_at, same) at e in
          let is_v : written w ≡ v = cc is_w in inl (sym is_v, str_eq→eq w.id k same)
      | inr other ↦ inr (rw (load-store_at, other) at e)
    ]

abbrev pub IsPendingStep : Step → Type 0
IsPendingStep s = (s.status ≡ StepStatus.pending) × (s.iteration ≡ 0)

-- A workflow as the loader makes it: nothing was executed yet.
pub record IsFresh (w : Workflow) : Type 0 where
  pub not_over : w.completed_at ≡ none
  pub all_pending : All IsPendingStep w.steps

-- The gates are no part of the execution.
gates_keep :
    (policy : Policy) (names : List String) (s : Step)
    → ((human_gate_step policy names s).status ≡ s.status)
      × ((human_gate_step policy names s).iteration ≡ s.iteration)
      × ((merge_gate_step policy s).status ≡ s.status)
      × ((merge_gate_step policy s).iteration ≡ s.iteration)
unfolding human_gate_step merge_gate_step add_gate
gates_keep policy names s = ground arith

pub gated_pending :
    (policy : Policy) (w : Workflow)
    → All IsPendingStep w.steps
    → All IsPendingStep (apply_approval_gates policy w).steps
unfolding apply_approval_gates
gated_pending policy w a =
    let human = human_gate_step policy w.require_approval_for in
    All-map IsPendingStep human _ (
      All-mono IsPendingStep (λ s. IsPendingStep (human s)) _
        (λ s p. ground (arith, gates_keep policy w.require_approval_for s))
        (if_ind (All IsPendingStep) w.require_human_merge_approval
          (λ _. All-map IsPendingStep (merge_gate_step policy) w.steps (
            All-mono IsPendingStep (λ s. IsPendingStep (merge_gate_step policy s)) w.steps
              (λ s p. ground (arith, gates_keep policy [] s)) a))
          (λ _. a)))

pub create-Inv :
    (limit : ℕ) (policy : Policy) (now : ℕ) (w : Workflow) (world : World)
    → IsFresh w
    → Inv limit (create_workflow policy now w world).0
unfolding create_workflow is_complete
create-Inv limit policy now w world fresh =
    let w₀ = record w { state = WorkflowState.pending; created_at = now; updated_at = now } in
    let new = gated_pending policy w₀ fresh.all_pending in
    Inv-RunsNone (All-mono IsPendingStep (λ s. s.iteration ≤ limit) _ (λ s p. omega arith) new)
      (unfold apply_approval_gates in rw fresh.not_over)
      (λ j s there r. pending_stopped s (All-get_elem? IsPendingStep _ j new there) r)
  where
    pending_stopped : (s : Step) → IsPendingStep s → s.status ≢ StepStatus.running
    pending_stopped s p r = cc (p.0)

-- A step of the whole: a fresh workflow is created, or a call succeeds. The clock may show anything.
pub data EngineStep (engine : Engine) : World → World → Type 0 where
  created :
      (policy : Policy) (now : ℕ) (w : Workflow) (world : World)
      → IsFresh w
      → EngineStep engine world (create_workflow policy now w world).1
  called :
      (now : ℕ) (workflow_id : String) (call : Call) (world : World) (w : Workflow) (world' : World)
      → Reports engine now workflow_id call world
      → perform engine now workflow_id call world ≡ ok w world'
      → EngineStep engine world world'

pub data Reach (engine : Engine) (world : World) : World → Type 0 where
  here : Reach engine world world
  next : {u v : World} → Reach engine world u → EngineStep engine u v → Reach engine world v

EngineStep-IsValid :
    (engine : Engine) {u v : World}
    → EngineStep engine u v
    → IsValid engine.max_loop_iterations u.store
    → IsValid engine.max_loop_iterations v.store
unfolding create_workflow audit_in save_workflow
EngineStep-IsValid engine (created policy now w world fresh) valid =
    store_at-IsValid engine.max_loop_iterations (create_workflow policy now w world).0 world.store
      (create-Inv engine.max_loop_iterations policy now w world fresh) valid
EngineStep-IsValid engine (called now id call world w world' reports e) valid =
    elim (Option-cases (load id world.store)) [
      | inl gone ↦ absurd (cc (perform_missing engine now id call world gone))
      | inr (v, found) ↦
          let inv =
            subst (InvResult engine.max_loop_iterations) e
              (perform-Inv engine now id call world v found reports (valid.sound id v found)) in
          let saved = subst (Saves world) e (perform-Saves engine now id call world) in
          rw saved (store_at-IsValid engine.max_loop_iterations w world.store inv valid)
    ]

-- From a storage that is valid (as an empty one is), every world that is reached by creating fresh
-- workflows and by calls that succeed, where only the running step is reported as complete, has a valid
-- storage: each workflow stands under its own id, no step was re-activated more often than the limit,
-- the time of completion is set exactly if the workflow is over, at most one step is running, that
-- step has the current number, and none is running before the start.
pub Reach-IsValid :
    (engine : Engine) {u v : World}
    → Reach engine u v
    → IsValid engine.max_loop_iterations u.store
    → IsValid engine.max_loop_iterations v.store
Reach-IsValid engine here valid = valid
Reach-IsValid engine (next r s) valid = EngineStep-IsValid engine s (Reach-IsValid engine r valid)

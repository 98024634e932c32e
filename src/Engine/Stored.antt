-- ===== src/Engine/Stored.antt =====
-- What an operation of the engine leaves in the storage.
use nexus_arc.Base.{
  ℕ, ◌≡◌, refl, Option, none, some, arith, String, truthy, if_ind, Option-cases, inl, inr,
}
use nexus_arc.Engine.Values.{Dict}
use nexus_arc.Engine.Model.{Step, Workflow, get_step, step_at}
use nexus_arc.Engine.World.{Engine, World, Store, NexusEvent, load, store_at, save_workflow}
use nexus_arc.Engine.Advance.{Flow, Outcome, activated, finished, reset_error, out_of_fuel}
use nexus_arc.Engine.Control.{
  Result, ok, raise, audit_in, emit_in, emit_optional, started, cancelled_now, start_workflow,
  pause_workflow, resume_workflow, cancel_workflow,
}
use nexus_arc.Engine.Complete.{
  call_complete, call_back, finalize_terminal_success, finalize_step_completion_tail, retry_step,
  fail_workflow, after_advance, succeed, complete_at, complete_step, react,
}

-- A result that raises, or that has its workflow saved last.
abbrev pub SavesIn : Store → Result → Type 0
SavesIn store (ok w world') = world'.store ≡ store_at w.id w store
SavesIn store (raise e) = Unit

abbrev pub Saves : World → Result → Type 0
Saves world r = SavesIn world.store r

module _ (engine : Engine) (now : ℕ) (workflow_id : String) where
  emit_in-store :
      (e : NexusEvent) (world : World) → (emit_in engine workflow_id e world).store ≡ world.store
  unfolding emit_in
  emit_in-store e world = refl

  module _ (outputs : Dict) where
    call_complete-store :
        (w : Workflow) (world : World)
        → (call_complete engine now workflow_id outputs w world).store ≡ world.store
    unfolding call_complete
    call_complete-store w world = ground arith

    call_back-store :
        (error : Option String) (a : Option ℕ) (w : Workflow) (world : World)
        → (call_back engine now workflow_id outputs error a w world).store ≡ world.store
    unfolding call_back
    call_back-store error a w world = ground (arith, call_complete-store w world)

    tail-Saves :
        (error : Option String) (s : Step) (a : Option ℕ) (w : Workflow) (world world₀ : World)
        → world.store ≡ world₀.store
        → Saves world₀
            (finalize_step_completion_tail engine now workflow_id outputs error s a w world)
    unfolding finalize_step_completion_tail audit_in save_workflow
    tail-Saves error s a w world world₀ h =
        rw (call_back-store error a (record w { updated_at = now }) _) (rw h)

    after_advance-Saves :
        (error : Option String) (s : Step) (r : Flow × Outcome) (world world₀ : World)
        → world.store ≡ world₀.store
        → Saves world₀ (after_advance engine now workflow_id outputs error s r world)
    unfolding after_advance save_workflow emit_in
    after_advance-Saves error s (flow, reset_error j) world world₀ h = rw h
    after_advance-Saves error s (flow, activated i) world world₀ h =
        tail-Saves error s _ flow.workflow _ world₀ h
    after_advance-Saves error s (flow, finished) world world₀ h =
        tail-Saves error s none flow.workflow _ world₀ h
    after_advance-Saves error s (flow, out_of_fuel) world world₀ h =
        tail-Saves error s none flow.workflow _ world₀ h

    terminal-Saves :
        (s : Step) (w : Workflow) (world world₀ : World)
        → world.store ≡ world₀.store
        → Saves world₀ (finalize_terminal_success engine now workflow_id outputs s w world)
    unfolding finalize_terminal_success audit_in save_workflow emit_in
    terminal-Saves s w world world₀ h = rw (call_complete-store _ _) (rw h)

    react-Saves :
        (error : Option String) (i : ℕ) (r : Step × Option (Option ℕ)) (w : Workflow)
        (world : World)
        → Saves world (react engine now workflow_id outputs error i r w world)
    unfolding react retry_step fail_workflow audit_in save_workflow emit_in
    react-Saves error i (s, some (some delay)) w world = refl
    react-Saves error i (s, some none) w world = tt
    react-Saves error i (s, none) w world = tail-Saves error s none _ _ world refl

    succeed-Saves :
        (error : Option String) (s : Step) (w : Workflow) (world : World)
        → Saves world (succeed engine now workflow_id outputs error s w world)
    unfolding succeed
    succeed-Saves error s w world =
        if_ind (Saves world) s.final_step (λ _. terminal-Saves s w _ world (emit_in-store _ world))
          (λ _. after_advance-Saves error s _ _ world (emit_in-store _ world))

    complete_at-Saves :
        (i : ℕ) (s : Step) (error : Option String) (w : Workflow) (world : World)
        → Saves world (complete_at engine now workflow_id i s outputs error w world)
    unfolding complete_at
    complete_at-Saves i s error w world =
        if_ind (Saves world) (truthy error) (λ _. react-Saves error i _ w world)
          (λ _. succeed-Saves error _ _ world)

  pub complete_step-Saves :
      (step_num : ℕ) (outputs : Dict) (error : Option String) (world : World)
      → Saves world (complete_step engine now workflow_id step_num outputs error world)
  unfolding complete_step
  complete_step-Saves step_num outputs error world =
      elim (Option-cases (load workflow_id world.store)) [
        | inl e ↦ rw (e, complete_step) tt
        | inr (w, e) ↦ elim (Option-cases (get_step w step_num)) [
          | inl g ↦ rw (e, complete_step) (rw (g, complete_step) tt)
          | inr (i, g) ↦ elim (Option-cases (step_at w i)) [
            | inl a ↦ rw (e, complete_step) (rw (g, a, complete_step) tt)
            | inr (s, a) ↦
                rw (e, complete_step)
                  (rw (g, a, complete_step) (complete_at-Saves outputs i s error w world))
          ]
        ]
      ]

  -- Every operation of the engine that returns a workflow has saved it as it returns it, and has
  -- written nothing else.
  pub start_workflow-Saves :
      (world : World) → Saves world (start_workflow engine now workflow_id world)
  unfolding start_workflow started emit_optional emit_in audit_in save_workflow
  start_workflow-Saves world = ground arith

  pub pause_workflow-Saves :
      (world : World) → Saves world (pause_workflow engine now workflow_id world)
  unfolding pause_workflow emit_in audit_in save_workflow
  pause_workflow-Saves world = ground arith

  pub resume_workflow-Saves :
      (world : World) → Saves world (resume_workflow engine now workflow_id world)
  unfolding resume_workflow audit_in save_workflow
  resume_workflow-Saves world = ground arith

  pub cancel_workflow-Saves :
      (world : World) → Saves world (cancel_workflow engine now workflow_id world)
  unfolding cancel_workflow cancelled_now emit_in audit_in save_workflow
  cancel_workflow-Saves world = ground arith

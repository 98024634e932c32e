-- ===== src/Engine/Calls.antt =====
-- The calls of `WorkflowEngine` that change a stored workflow, and what each leaves in the storage.
use nexus_arc.Base.{str_eq, if◌then◌else◌, ℕ, ◌≡◌, Option, some, none, String, subst}
use nexus_arc.Engine.Values.{Dict}
use nexus_arc.Engine.Model.{Workflow}
use nexus_arc.Engine.Serde.{written}
use nexus_arc.Engine.World.{Engine, World, load, load-store_at}
use nexus_arc.Engine.Control.{
  Result, ok, raise, workflow_not_found, start_workflow, pause_workflow, resume_workflow,
  cancel_workflow,
}
use nexus_arc.Engine.Complete.{complete_step}
use nexus_arc.Engine.Stored.{
  Saves, start_workflow-Saves, pause_workflow-Saves, resume_workflow-Saves, cancel_workflow-Saves,
  complete_step-Saves,
}

-- A call of the engine on an existing workflow, and its run.
pub data Call : Type 0 where
  start pause resume cancel : Call
  complete : (step_num : ℕ) (outputs : Dict) (error : Option String) → Call

module _ (engine : Engine) (now : ℕ) (workflow_id : String) where
  unfoldable pub perform : Call → World → Result
  perform start world = start_workflow engine now workflow_id world
  perform pause world = pause_workflow engine now workflow_id world
  perform resume world = resume_workflow engine now workflow_id world
  perform cancel world = cancel_workflow engine now workflow_id world
  perform (complete step_num outputs error) world =
      complete_step engine now workflow_id step_num outputs error world

  pub perform-Saves : (call : Call) (world : World) → Saves world (perform call world)
  unfolding perform
  perform-Saves start world = start_workflow-Saves engine now workflow_id world
  perform-Saves pause world = pause_workflow-Saves engine now workflow_id world
  perform-Saves resume world = resume_workflow-Saves engine now workflow_id world
  perform-Saves cancel world = cancel_workflow-Saves engine now workflow_id world
  perform-Saves (complete step_num outputs error) world =
      complete_step-Saves engine now workflow_id step_num outputs error world

  pub load-perform :
      (call : Call) (world : World) (k : String) {w : Workflow} {world' : World}
      → perform call world ≡ ok w world'
      → load k world'.store ≡ (if str_eq w.id k then some (written w) else load k world.store)
  load-perform call world k {w} {world'} e =
      let saved = subst (Saves world) e (perform-Saves call world) in rw (saved, load-store_at)

  -- A call on a workflow that is not stored raises.
  pub perform_missing :
      (call : Call) (world : World)
      → load workflow_id world.store ≡ none
      → perform call world ≡ raise (workflow_not_found workflow_id)
  unfolding perform start_workflow pause_workflow resume_workflow cancel_workflow complete_step
  perform_missing start world e = rw (e, start_workflow)
  perform_missing pause world e = rw (e, pause_workflow)
  perform_missing resume world e = rw (e, resume_workflow)
  perform_missing cancel world e = rw (e, cancel_workflow)
  perform_missing (complete step_num outputs error) world e = rw (e, complete_step)

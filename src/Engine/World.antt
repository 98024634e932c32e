-- ===== src/Engine/World.antt =====
-- What the engine does to the outside: the storage backend as a map from workflow ids to saved
-- workflows, and the trace of the calls that it makes (newest first). The calls of the storage backend
-- return normally; what a load gives is what was written, read again.
use nexus_arc.Base.{
  ℕ, String, Bool, Option, none, some, List, [], ◌∷◌, str_eq, if◌then◌else◌, eq_iff, ◌≡◌, refl,
  arith,
}
use nexus_arc.Engine.Values.{Dict}
use nexus_arc.Engine.Model.{Workflow}
use nexus_arc.Engine.Serde.{written}
use nexus_arc.Engine.Routing.{Eval}

-- The event type of an audit event with the data that the engine puts in it.
pub data AuditEvent : Type 0 where
  workflow_created : (name : String) → AuditEvent
  workflow_started workflow_paused workflow_resumed workflow_cancelled : AuditEvent
  step_retry :
      (step_num : ℕ) (step_name : String) (retry_count backoff : ℕ) (error : Option String)
      → AuditEvent
  step_skipped_router : (step_num : ℕ) (step_name : String) → AuditEvent
  step_skipped_condition :
      (step_num : ℕ) (step_name : String) (condition : Option String) → AuditEvent
  step_completed : (step_num : ℕ) (step_name : String) (error : Option String) → AuditEvent
  step_failed : (step_num : ℕ) (step_name : String) (error : Option String) → AuditEvent

-- The events of nexus/core/events.py that the engine emits on the bus.
pub data NexusEvent : Type 0 where
  workflow_started workflow_paused workflow_cancelled : NexusEvent
  workflow_completed : (total completed failed skipped : ℕ) → NexusEvent
  workflow_failed : (error : String) → NexusEvent
  step_started : (step_num : ℕ) (step_name agent_type : String) → NexusEvent
  step_completed : (step_num : ℕ) (step_name agent_type : String) (outputs : Dict) → NexusEvent
  step_failed : (step_num : ℕ) (step_name agent_type : String) (error : Option String) → NexusEvent
  step_skipped_router : (step_num : ℕ) (step_name agent_type : String) → NexusEvent
  step_skipped_condition :
      (step_num : ℕ) (step_name agent_type : String) (condition : Option String) → NexusEvent

pub data Effect : Type 0 where
  saved : Workflow → Effect
  audited : (workflow_id : String) → AuditEvent → Effect
  emitted : (workflow_id : String) → NexusEvent → Effect
  step_transition : (workflow : Workflow) (step_num : ℕ) (outputs : Dict) → Effect
  workflow_complete : (workflow : Workflow) (outputs : Dict) → Effect

abbrev pub Store : Type 0
Store = List (String × Workflow)

-- `storage.load_workflow`
unfoldable pub load : String → Store → Option Workflow
load k [] = none
load k ((j, w) ∷ m) = if str_eq j k then some w else load k m

-- `storage.save_workflow`, under the workflow's own id. The entry is what a load makes of what was
-- written.
unfoldable pub store_at : String → Workflow → Store → Store
store_at k w [] = (k, written w) ∷ []
store_at k w ((j, v) ∷ m) = if str_eq j k then (k, written w) ∷ m else (j, v) ∷ store_at k w m

pub record World : Type 0 where
  pub store : Store
  pub trace : List Effect

-- The engine's settings: the limit _MAX_LOOP_ITERATIONS, the base delay of a retry, the evaluator
-- of conditions, and whether there are an event bus and the two callbacks.
pub record Engine : Type 0 where
  pub max_loop_iterations : ℕ
  pub default_backoff_base : ℕ
  pub eval : Eval
  pub event_bus : Bool
  pub on_step_transition : Bool
  pub on_workflow_complete : Bool

-- `_emit`: nothing without a bus, and a failure of the bus is only logged.
unfoldable pub emit : Engine → String → NexusEvent → List Effect → List Effect
emit engine workflow_id e trace = if engine.event_bus then emitted workflow_id e ∷ trace else trace

-- `_audit`
unfoldable pub audit : String → AuditEvent → List Effect → List Effect
audit workflow_id e trace = audited workflow_id e ∷ trace

unfoldable pub save_workflow : Workflow → World → World
unfolding store_at
save_workflow w world = record world {
  store = store_at w.id w world.store;
  trace = saved w ∷ world.trace;
}

pub load-store_at :
    (k j : String) (w : Workflow) (m : Store)
    → load j (store_at k w m) ≡ (if str_eq k j then some (written w) else load j m)
unfolding load store_at
load-store_at k j w [] = refl
load-store_at k j w ((i, v) ∷ m) =
    ground (arith, eq_iff k j, eq_iff i k, eq_iff i j, load-store_at k j w m)

-- ===== src/StatePlugin/Runs.antt =====
-- Sequences of operations of the plugin.
use nexus_arc.Base.{ℕ, inl, inr, String, Bool, Option-cases}
use nexus_arc.Engine.Calls.{Call, start, pause, resume}
use nexus_arc.Engine.Reach.{Reports}
use nexus_arc.StatePlugin.Refs.{Text}
use nexus_arc.StatePlugin.Completion.{
  Plugin, PluginState, Report, resolve_workflow_id, complete_step_for_issue,
}
use nexus_arc.StatePlugin.Creation.{Templates, CreationRequest, create_workflow_for_issue}
use nexus_arc.StatePlugin.Manual.{
  reset_to_agent_for_issue, start_workflow_of, pause_workflow_for, resume_workflow_for, on_issue,
}
use nexus_arc.StatePlugin.Sound.{IsSound}
use nexus_arc.StatePlugin.Reported.{complete_step_for_issue-IsSound}
use nexus_arc.StatePlugin.Operations.{
  Sound, create_workflow_for_issue-Sound, reset_to_agent_for_issue-Sound, try_call-Sound,
}

-- One step of the plugin: an operation on an issue, at any instant.
pub data PluginStep (plugin : Plugin) (templates : Templates)
    : PluginState → PluginState → Type 0 where
  creates :
      (now : ℕ) (request : CreationRequest) (state : PluginState)
      → PluginStep plugin templates state
          (create_workflow_for_issue plugin templates now request state).1
  reports :
      (now : ℕ) (writes : Bool) (report : Report) (state : PluginState)
      → PluginStep plugin templates state (complete_step_for_issue plugin now writes report state).1
  resets :
      (now : ℕ) (issue_number : String) (agent_ref : Text) (state : PluginState)
      → PluginStep plugin templates state
          (reset_to_agent_for_issue plugin templates now issue_number agent_ref state).1
  starts :
      (now : ℕ) (id : String) (state : PluginState)
      → PluginStep plugin templates state (start_workflow_of plugin now id state).1
  pauses :
      (now : ℕ) (issue_number : String) (state : PluginState)
      → PluginStep plugin templates state (pause_workflow_for plugin now issue_number state).1
  resumes :
      (now : ℕ) (issue_number : String) (state : PluginState)
      → PluginStep plugin templates state (resume_workflow_for plugin now issue_number state).1

pub data PluginReach (plugin : Plugin) (templates : Templates) (state : PluginState)
    : PluginState → Type 0 where
  here : PluginReach plugin templates state state
  next :
      {u v : PluginState}
      → PluginReach plugin templates state u
      → PluginStep plugin templates u v
      → PluginReach plugin templates state v

module _ (plugin : Plugin) (templates : Templates) where
  on_issue-Sound :
      (now : ℕ) (issue_number : String) (call : Call) (state : PluginState)
      → ((id : String) → Reports plugin.engine now id call state.world)
      → Sound plugin templates now state
      → Sound plugin templates now (on_issue plugin now issue_number call state).1
  on_issue-Sound now issue_number call state r sound =
      elim (Option-cases (resolve_workflow_id plugin issue_number)) [
        | inl e ↦ rw (e, on_issue) sound
        | inr (id, e) ↦
            rw (e, on_issue) (try_call-Sound plugin templates now id call state (r id) sound)
      ]

  PluginStep-IsSound :
      {u v : PluginState}
      → PluginStep plugin templates u v
      → IsSound plugin.engine.max_loop_iterations u.world.store
      → IsSound plugin.engine.max_loop_iterations v.world.store
  unfolding start_workflow_of pause_workflow_for resume_workflow_for
  PluginStep-IsSound (creates now request state) sound =
      create_workflow_for_issue-Sound plugin templates now request state sound
  PluginStep-IsSound (reports now writes report state) sound =
      complete_step_for_issue-IsSound plugin now writes report state sound
  PluginStep-IsSound (resets now issue_number agent_ref state) sound =
      reset_to_agent_for_issue-Sound plugin templates now issue_number agent_ref state sound
  PluginStep-IsSound (starts now id state) sound =
      try_call-Sound plugin templates now id start state tt sound
  PluginStep-IsSound (pauses now issue_number state) sound =
      on_issue-Sound now issue_number pause state (λ id. tt) sound
  PluginStep-IsSound (resumes now issue_number state) sound =
      on_issue-Sound now issue_number resume state (λ id. tt) sound

  -- From a sound storage (as an empty one is), every state that the plugin's operations lead to has a
  -- sound storage, whatever is created, reported, reset, started, paused and resumed in whatever order: each workflow
  -- stands under its own id, numbers its steps apart, has at most one running step, which is the current one and
  -- runs only after the start, has re-activated no step more often than the limit, and has a
  -- time of completion exactly if it is over.
  pub PluginReach-IsSound :
      {u v : PluginState}
      → PluginReach plugin templates u v
      → IsSound plugin.engine.max_loop_iterations u.world.store
      → IsSound plugin.engine.max_loop_iterations v.world.store
  PluginReach-IsSound here sound = sound
  PluginReach-IsSound (next r s) sound = PluginStep-IsSound s (PluginReach-IsSound r sound)

-- ===== src/StatePlugin/Operations.antt =====
-- The operations of the plugin, one by one, on a sound storage.
use nexus_arc.Base.{
  ℕ, ◌≡◌, subst, inl, inr, String, Option, none, some, codes, truthy, Option-cases, if_ind,
}
use nexus_arc.Engine.Values.{Value, null, boolean, number, text, array, dict, put}
use nexus_arc.Engine.Model.{Workflow, step_at}
use nexus_arc.Engine.Gates.{apply_approval_gates}
use nexus_arc.Engine.World.{World, load}
use nexus_arc.Engine.Control.{get_workflow, start_workflow}
use nexus_arc.Engine.Calls.{Call, start, perform}
use nexus_arc.Engine.Reach.{IsFresh, Reports}
use nexus_arc.Loader.Build.{loaded, from_yaml, normalize_workflow_type}
use nexus_arc.Loader.Built.{Loaded-cases}
use nexus_arc.Loader.Loaded.{from_dict-IsFresh}
use nexus_arc.StatePlugin.Refs.{Text}
use nexus_arc.StatePlugin.Completion.{Plugin, PluginState, resolve_workflow_id}
use nexus_arc.StatePlugin.Cases.{Result-cases}
use nexus_arc.StatePlugin.Creation.{
  Templates, CreationRequest, Creation, not_created, created, load_failed, load_definition,
  create_from, create_at, create_workflow_for_issue, creation_overrides,
  resolve_workflow_id_for_creation,
}
use nexus_arc.StatePlugin.Manual.{
  reset_to, reset_found, try_start, try_call, infer_project_and_tier, recovery_request,
  recover_missing_workflow, reset_recovered, reset_mapped, reset_to_agent_for_issue,
}
use nexus_arc.StatePlugin.Numbered.{IsNumbered}
use nexus_arc.StatePlugin.Sound.{IsSound, create-IsSound, perform-IsSound}
use nexus_arc.StatePlugin.Rewound.{reset-IsSound}

module _ (plugin : Plugin) (templates : Templates) (now : ℕ) where
  open plugin use {engine, policy}
  open engine use {max_loop_iterations as limit}

  -- The storage of a state is sound.
  abbrev pub Sound : PluginState → Type 0
  Sound state = IsSound limit state.world.store

  reset_to-Sound :
      (v : Workflow) (o : Option ℕ) (state : PluginState) (id : String)
      → load id state.world.store ≡ some v
      → Sound state
      → Sound (reset_to plugin templates now (apply_approval_gates policy v) o state).1
  unfolding reset_to
  reset_to-Sound v none state id found sound = sound
  reset_to-Sound v (some i) state id found sound =
      elim (Option-cases (step_at (apply_approval_gates policy v) i)) [
        | inl e ↦ rw (e, reset_to) sound
        | inr (s, e) ↦
            rw (e, reset_to)
              (reset-IsSound limit now s.step_num policy v state.world id found sound)
      ]

  reset_found-Sound :
      (agent_ref : Text) (id : String) (state : PluginState)
      → Sound state
      → Sound
          (reset_found plugin templates now agent_ref (get_workflow policy id state.world) state).1
  unfolding reset_found get_workflow
  reset_found-Sound agent_ref id state sound = elim (Option-cases (load id state.world.store)) [
    | inl e ↦ rw (e, get_workflow) sound
    | inr (v, e) ↦ rw (e, get_workflow) (reset_to-Sound v _ state id e sound)
  ]

  try_start-IsSound :
      (id : String) (world : World)
      → IsSound limit world.store
      → IsSound limit (try_start plugin templates now id world).store
  unfolding try_start perform
  try_start-IsSound id world sound = elim (Result-cases (start_workflow engine now id world)) [
    | inl (e, h) ↦ rw (h, try_start) sound
    | inr (w, world', h) ↦ rw (h, try_start) (perform-IsSound engine now id start world tt h sound)
  ]

  pub load_definition-IsFresh :
      (request : CreationRequest) (path id : String) (content : Value) {w : Workflow}
      → load_definition plugin templates now request path id content ≡ loaded w
      → IsFresh w × IsNumbered w
  unfolding load_definition from_yaml
  load_definition-IsFresh request path id (dict d) e =
      from_dict-IsFresh templates.float_ms
        (templates.resolve_steps (normalize_workflow_type request.tier_name)) policy now
        (creation_overrides templates request path id) (put "__yaml_path" (text path) d) e
  load_definition-IsFresh request path id null e = absurd (cc e)
  load_definition-IsFresh request path id (boolean _) e = absurd (cc e)
  load_definition-IsFresh request path id (number _) e = absurd (cc e)
  load_definition-IsFresh request path id (text _) e = absurd (cc e)
  load_definition-IsFresh request path id (array _) e = absurd (cc e)

  create_from-Sound :
      (request : CreationRequest) (path : String) (content : Value) (id : Option String)
      (state : PluginState)
      → Sound state
      → Sound (create_from plugin templates now request path content id state).1
  unfolding create_from
  create_from-Sound request path content none state sound = sound
  create_from-Sound request path content (some id) state sound =
      elim (Loaded-cases (load_definition plugin templates now request path id content)) [
        | inl (e, h) ↦ rw (h, create_from) sound
        | inr (w, h) ↦
            let (fresh, numbered) = load_definition-IsFresh request path id content h in
            rw (h, create_from)
              (create-IsSound engine policy now w state.world fresh numbered sound)
      ]

  create_at-Sound :
      (request : CreationRequest) (o : Option String) (state : PluginState)
      → Sound state
      → Sound (create_at plugin templates now request o state).1
  unfolding create_at
  create_at-Sound request none state sound = sound
  create_at-Sound request (some path) state sound = elim (Option-cases (templates.read_yaml path)) [
    | inl e ↦ rw (e, create_at) sound
    | inr (content, e) ↦
        rw (e, create_at)
          (create_from-Sound request path content
            (resolve_workflow_id_for_creation request state.world.store) state sound)
  ]

  pub create_workflow_for_issue-Sound :
      (request : CreationRequest) (state : PluginState)
      → Sound state
      → Sound (create_workflow_for_issue plugin templates now request state).1
  unfolding create_workflow_for_issue
  create_workflow_for_issue-Sound request state sound =
      if_ind (λ (r : Creation × PluginState). Sound r.1)
        (truthy (templates.workflow_definition_path request.project_name))
        (λ _.
          create_at-Sound request (templates.workflow_definition_path request.project_name) state
            sound)
        (λ _. sound)

  recover-Sound :
      (issue_number id : String) (state : PluginState)
      → Sound state
      → Sound (recover_missing_workflow plugin templates now issue_number id state).1
  unfolding recover_missing_workflow
  recover-Sound issue_number id state sound =
      elim (Option-cases (infer_project_and_tier (codes id) (codes issue_number))) [
        | inl e ↦ rw (e, recover_missing_workflow) sound
        | inr (names, e) ↦
            let request = recovery_request plugin templates now issue_number names in
            rw (e, recover_missing_workflow)
              (go (create_workflow_for_issue plugin templates now request state)
                (create_workflow_for_issue-Sound request state sound))
      ]
    where
      go :
          (r : Creation × PluginState)
          → Sound r.1
          → Sound (elim r.0 [
            | created new_id ↦ record (r.1) {
              world = try_start plugin templates now new_id r.1.world;
            }
            | _ ↦ r.1
          ])
      go (created new_id, state') s = try_start-IsSound new_id state'.world s
      go (not_created, state') s = s
      go (load_failed e, state') s = s

  reset_recovered-Sound :
      (agent_ref : Text) (id : String) (o : Option Creation) (state : PluginState)
      → Sound state
      → Sound (reset_recovered plugin templates now agent_ref id (o, state)).1
  unfolding reset_recovered
  reset_recovered-Sound agent_ref id none state sound = sound
  reset_recovered-Sound agent_ref id (some not_created) state sound = sound
  reset_recovered-Sound agent_ref id (some (load_failed e)) state sound = sound
  reset_recovered-Sound agent_ref id (some (created new_id)) state sound =
      reset_found-Sound agent_ref id state sound

  reset_mapped-Sound :
      (issue_number : String) (agent_ref : Text) (id : String) (state : PluginState)
      → Sound state
      → Sound (reset_mapped plugin templates now issue_number agent_ref id state).1
  unfolding reset_mapped
  reset_mapped-Sound issue_number agent_ref id state sound =
      elim (Option-cases (get_workflow policy id state.world)) [
        | inl e ↦
            let r = recover_missing_workflow plugin templates now issue_number id state in
            rw (e, reset_mapped)
              (reset_recovered-Sound agent_ref id r.0 r.1
                (recover-Sound issue_number id state sound))
        | inr (w, e) ↦
            rw (e, reset_mapped)
              (subst (λ o. Sound (reset_found plugin templates now agent_ref o state).1) e
                (reset_found-Sound agent_ref id state sound))
      ]

  pub reset_to_agent_for_issue-Sound :
      (issue_number : String) (agent_ref : Text) (state : PluginState)
      → Sound state
      → Sound (reset_to_agent_for_issue plugin templates now issue_number agent_ref state).1
  unfolding reset_to_agent_for_issue
  reset_to_agent_for_issue-Sound issue_number agent_ref state sound =
      elim (Option-cases (resolve_workflow_id plugin issue_number)) [
        | inl e ↦ rw (e, reset_to_agent_for_issue) sound
        | inr (id, e) ↦
            rw (e, reset_to_agent_for_issue)
              (reset_mapped-Sound issue_number agent_ref id state sound)
      ]

  -- A call that reports no completion.
  pub try_call-Sound :
      (id : String) (call : Call) (state : PluginState)
      → Reports engine now id call state.world
      → Sound state
      → Sound (try_call plugin now id call state).1
  unfolding try_call
  try_call-Sound id call state reports sound =
      elim (Result-cases (perform engine now id call state.world)) [
        | inl (e, h) ↦ rw (h, try_call) sound
        | inr (w, world', h) ↦
            rw (h, try_call) (perform-IsSound engine now id call state.world reports h sound)
      ]

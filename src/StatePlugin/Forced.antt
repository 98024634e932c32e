-- ===== src/StatePlugin/Forced.antt =====
-- The creation of a new instance beside the workflows that an issue has.
use nexus_arc.Base.{
  ℕ, ◌≡◌, refl, sym, ap, ◌∙◌, inl, inr, String, true, false, Option, none, some, List, is_empty,
  str_eq, str_eq→eq, truthy, Option-cases, Bool-cases, if_ind,
}
use nexus_arc.Engine.Values.{Value, null, boolean, number, text, array, dict, put}
use nexus_arc.Engine.Model.{Step, Workflow}
use nexus_arc.Engine.Gates.{apply_approval_gates}
use nexus_arc.Engine.World.{World, load, load-store_at, save_workflow}
use nexus_arc.Engine.Control.{create_workflow, audit_in}
use nexus_arc.Loader.Build.{loaded, from_yaml, make_workflow, resolved_id, normalize_workflow_type}
use nexus_arc.Loader.Built.{Loaded-cases}
use nexus_arc.Loader.Loaded.{from_dict-loaded}
use nexus_arc.StatePlugin.Completion.{Plugin, PluginState}
use nexus_arc.StatePlugin.Creation.{
  Templates, CreationRequest, Creation, load_definition, create_from, create_at,
  create_workflow_for_issue, creation_overrides,
}
use nexus_arc.StatePlugin.FreshIds.{resolve_workflow_id_for_creation_total}

module _ (plugin : Plugin) (templates : Templates) (now : ℕ) (request : CreationRequest) where
  open plugin use {policy}

  -- The workflow gets the id that was chosen for it.
  load_definition-id :
      (path id : String) (content : Value) {w : Workflow}
      → is_empty id ≡ false
      → load_definition plugin templates now request path id content ≡ loaded w
      → w.id ≡ id
  unfolding load_definition from_yaml
  load_definition-id path id (dict d) {w} named e =
      let (ss, built, is_w) =
        from_dict-loaded templates.float_ms
          (templates.resolve_steps (normalize_workflow_type request.tier_name)) policy now
          (creation_overrides templates request path id) (put "__yaml_path" (text path) d) e in
      ap (λ x. x.id) is_w ∙ chosen ss
    where
      chosen :
          (ss : List Step)
          → (apply_approval_gates policy (
              make_workflow now
                (creation_overrides templates request path id)
                (put "__yaml_path" (text path) d)
                ss)).id
            ≡ id
      chosen ss =
          unfold apply_approval_gates make_workflow resolved_id creation_overrides in rw named
  load_definition-id path id null named e = absurd (cc e)
  load_definition-id path id (boolean _) named e = absurd (cc e)
  load_definition-id path id (number _) named e = absurd (cc e)
  load_definition-id path id (text _) named e = absurd (cc e)
  load_definition-id path id (array _) named e = absurd (cc e)

  -- To store a workflow under an id that none has loses none.
  create-keeps :
      (w v : Workflow) (world : World) (id k : String)
      → w.id ≡ id
      → load id world.store ≡ none
      → load k world.store ≡ some v
      → load k (create_workflow policy now w world).1.store ≡ some v
  unfolding create_workflow audit_in save_workflow
  create-keeps w v world id k same free there =
      let made = (create_workflow policy now w world).0 in
      load-store_at made.id k made world.store ∙ elim (Bool-cases (str_eq made.id k)) [
        | inr other ↦ rw other there
        | inl taken ↦
            let same_id : w.id ≡ made.id = unfold apply_approval_gates in refl in
            let is_k : id ≡ k = sym same ∙ same_id ∙ str_eq→eq made.id k taken in
            absurd (cc (is_k, free, there))
      ]

  create_from-keeps :
      (path : String) (content : Value) (id k : String) (state : PluginState) (v : Workflow)
      → is_empty id ≡ false
      → load id state.world.store ≡ none
      → load k state.world.store ≡ some v
      → load k (create_from plugin templates now request path content (some id) state).1.world.store
        ≡ some v
  unfolding create_from
  create_from-keeps path content id k state v named free there =
      elim (Loaded-cases (load_definition plugin templates now request path id content)) [
        | inl (e, h) ↦ rw (h, create_from) there
        | inr (w, h) ↦
            rw (h, create_from)
              (create-keeps w v state.world id k (load_definition-id path id content named h) free
                there)
      ]

  create_at-keeps :
      (o : Option String) (k : String) (state : PluginState) (v : Workflow)
      → request.force_new_instance ≡ true
      → load k state.world.store ≡ some v
      → load k (create_at plugin templates now request o state).1.world.store ≡ some v
  unfolding create_at
  create_at-keeps none k state v forced there = there
  create_at-keeps (some path) k state v forced there =
      elim (Option-cases (templates.read_yaml path)) [
        | inl e ↦ rw (e, create_at) there
        | inr (content, e) ↦
            let (id, found, free, named) =
              resolve_workflow_id_for_creation_total request state.world.store forced in
            rw (e, create_at)
              (rw found (create_from-keeps path content id k state v named free there))
      ]

-- A creation that is forced to make a new instance leaves every stored workflow as it was.
pub create_workflow_for_issue-forced :
    (plugin : Plugin) (templates : Templates) (now : ℕ) (request : CreationRequest)
    (state : PluginState) (k : String) (v : Workflow)
    → request.force_new_instance ≡ true
    → load k state.world.store ≡ some v
    → load k (create_workflow_for_issue plugin templates now request state).1.world.store ≡ some v
unfolding create_workflow_for_issue
create_workflow_for_issue-forced plugin templates now request state k v forced there =
    if_ind (λ (r : Creation × PluginState). load k r.1.world.store ≡ some v)
      (truthy (templates.workflow_definition_path request.project_name))
      (λ _.
        create_at-keeps plugin templates now request
          (templates.workflow_definition_path request.project_name) k state v forced there)
      (λ _. there)

-- ===== src/StatePlugin/Creation.antt =====
-- `create_workflow_for_issue` with `_resolve_workflow_id_for_creation`, and
-- `_recover_missing_workflow` with `_infer_project_and_tier_from_workflow_id`. The callback that is told of
-- the new workflow's id is not modelled.
use nexus_arc.Base.{
  ℕ, zero, suc, ◌+◌, String, Bool, Option, none, some, List, ◌∷◌, ◌++◌, length, codes, decimal,
  is_some, truthy, if◌then◌else◌,
}
use nexus_arc.Engine.Values.{Value, text, Dict, empty, entry, put}
use nexus_arc.Engine.Model.{Workflow}
use nexus_arc.Engine.World.{Store, load}
use nexus_arc.Engine.Control.{create_workflow}
use nexus_arc.Loader.Fields.{text_of, text_else}
use nexus_arc.Loader.Build.{
  Loaded, loaded, invalid, LoadError, Overrides, from_yaml, normalize_workflow_type,
}
use nexus_arc.StatePlugin.Completion.{Plugin, PluginState}

-- The configuration for definitions. `read_yaml` is the parsed content of a file, none if it does not exist.
pub record Templates : Type 0 where
  pub workflow_definition_path : String → Option String
  pub read_yaml : String → Option Value
  pub resolve_steps : String → Dict → List Value
  pub float_ms : Value → Option ℕ
  pub issue_url : String → Option String
  pub default_task_type : String

pub record CreationRequest : Type 0 where
  pub issue_number : String
  pub issue_title : String
  pub project_name : String
  pub tier_name : String
  pub task_type : String
  pub description : String
  pub force_new_instance : Bool

-- None, the id of the new workflow, or the loader's ValueError.
pub data Creation : Type 0 where
  not_created : Creation
  created : String → Creation
  load_failed : LoadError → Creation

-- `f"{project_name}-{issue_number}-{tier_name}"`
unfoldable pub base_id : String → String → String → String
unfolding text_of
base_id project issue tier = text_of (codes project ++ b'-' ∷ (codes issue ++ b'-' ∷ codes tier))

-- `f"{base_id}-r{suffix_index}"`
unfoldable pub candidate : String → ℕ → String
unfolding text_of decimal
candidate base n = text_of (codes base ++ (codes "-r" ++ decimal n))

-- The while loop: the first candidate from an index on that names no workflow.
unfoldable pub fresh_from : ℕ → String → Store → ℕ → Option String
unfolding candidate load
fresh_from zero base store n = none
fresh_from (suc fuel) base store n =
    let rest = fresh_from fuel base store (n + 1) in
    if is_some (load (candidate base n) store) then rest else some (candidate base n)

unfoldable pub resolve_workflow_id_for_creation : CreationRequest → Store → Option String
unfolding base_id fresh_from
resolve_workflow_id_for_creation request store =
    let base = base_id request.project_name request.issue_number request.tier_name in
    if request.force_new_instance then fresh_from (suc (length store)) base store 1 else some base

unfoldable pub creation_metadata : Templates → CreationRequest → String → Dict
unfolding normalize_workflow_type put
creation_metadata templates request path =
    let metadata = entry "issue_number" (text request.issue_number) (
      entry "project" (text request.project_name) (
        entry "tier" (text request.tier_name) (
          entry "task_type" (text request.task_type) (
            entry "workflow_type" (text (normalize_workflow_type request.tier_name))
              (entry "workflow_definition_path" (text path) empty))))) in
    let url : String = elim (templates.issue_url request.issue_number) [ none ↦ "" | some u ↦ u ] in
    if truthy (templates.issue_url request.issue_number)
    then put "github_issue_url" (text url) metadata
    else metadata

unfoldable pub creation_overrides : Templates → CreationRequest → String → String → Overrides
unfolding creation_metadata text_of text_else
creation_overrides templates request path id = record {
  workflow_id = some id;
  name_override = some (text_of (codes request.project_name ++ b'/' ∷ codes request.issue_title));
  description_override = some (
      text_else (some request.description)
        (text_of (codes "Workflow for issue #" ++ codes request.issue_number)));
  metadata = creation_metadata templates request path;
}

module _ (plugin : Plugin) (templates : Templates) (now : ℕ) where
  unfoldable pub load_definition : CreationRequest → String → String → Value → Loaded Workflow
  unfolding creation_overrides from_yaml normalize_workflow_type
  load_definition request path id content =
      from_yaml templates.float_ms
        (templates.resolve_steps (normalize_workflow_type request.tier_name)) plugin.policy now
        (creation_overrides templates request path id) path content

  -- With the definition's path and content, and the id.
  unfoldable pub create_from :
      CreationRequest → String → Value → Option String → PluginState → Creation × PluginState
  unfolding load_definition
  create_from request path content none state = (not_created, state)
  create_from request path content (some id) state =
      elim (load_definition request path id content) [
        | invalid e ↦ (load_failed e, state)
        | loaded w ↦ (
          created id,
          record state { world = (create_workflow plugin.policy now w state.world).1 },
        )
      ]

  unfoldable pub create_at : CreationRequest → Option String → PluginState → Creation × PluginState
  unfolding create_from resolve_workflow_id_for_creation
  create_at request none state = (not_created, state)
  create_at request (some path) state = elim (templates.read_yaml path) [
    | none ↦ (not_created, state)
    | some content ↦
        create_from request path content
          (resolve_workflow_id_for_creation request state.world.store) state
  ]

  unfoldable pub create_workflow_for_issue : CreationRequest → PluginState → Creation × PluginState
  unfolding create_at
  create_workflow_for_issue request state =
      let path = templates.workflow_definition_path request.project_name in
      if truthy path then create_at request path state else (not_created, state)

-- ===== src/Engine/Lifecycle.antt =====
-- The calls of the engine against the diagram of the states.
use nexus_arc.Base.{
  ℕ, zero, suc, List, [], ◌∷◌, get_elem?, modify_at, ◌≡◌, refl, ◌∙◌, inl, inr, Option, some, map,
  String, ap, subst,
}
use nexus_arc.Engine.Values.{Dict}
use nexus_arc.Engine.Model.{Step, Workflow, step_at}
use nexus_arc.Engine.Routing.{build_step_context}
use nexus_arc.Engine.World.{Engine, World, load}
use nexus_arc.Engine.Advance.{Outcome, activated, finished, reset_error, out_of_fuel, change_step}
use nexus_arc.Engine.Moves.{Ends}
use nexus_arc.Engine.Kept.{definition, definitions, EndsAs, Ends-EndsAs, Ends-definitions}
use nexus_arc.Engine.Control.{Result, ok, raise}
use nexus_arc.Engine.Complete.{complete_step, complete_at}
use nexus_arc.Engine.Completes.{
  Completes, CompletesResult, complete_at-Completes, retried, gave_up, ended, searched,
  after_search,
}
use nexus_arc.Engine.Invariant.{
  attempt-definition, done-definition, finished_step, Ends-ne-out_of_fuel,
}
use nexus_arc.Engine.Cases.{complete_step_ind}
use nexus_arc.Engine.Calls.{Call, start, pause, resume, cancel, complete, perform}
use nexus_arc.Engine.Transitions.{
  completes, Follows, FollowsResult, start-Follows, pause-Follows, resume-Follows, cancel-Follows,
}

definitions_replace :
    (ss : List Step) (i : ℕ) (t : Step) {s : Step}
    → get_elem? ss i ≡ some s
    → definition t ≡ definition s
    → map definition (modify_at ss i (λ _. t)) ≡ map definition ss
definitions_replace [] i t there same = refl
definitions_replace (x ∷ ss) zero t there same = cc
definitions_replace (x ∷ ss) (suc i) t there same =
    ap (◌∷◌ (definition x)) (definitions_replace ss i t there same)

module _ (engine : Engine) (now : ℕ) (outputs : Dict) (error : Option String) (i : ℕ) (s : Step)
    (w : Workflow) (step_num : ℕ) where
  abbrev report : Call
  report = complete step_num outputs error

  -- A step put in the place of one with the same definition.
  same_step :
      (t : Step)
      → step_at w i ≡ some s
      → definition t ≡ definition s
      → definitions (change_step i (λ _. t) w) ≡ definitions w
  unfolding change_step
  same_step t there same = definitions_replace w.steps i t there same

  after_search-Follows :
      (o : Outcome) (u : Workflow)
      → step_at w i ≡ some s
      → Ends engine now
          (build_step_context (change_step i (λ _. finished_step engine now outputs error i s w) w))
          (change_step i (λ _. finished_step engine now outputs error i s w) w)
          o
          u
      → Follows report w (after_search now o u)
  unfolding change_step
  after_search-Follows o u there e =
      let kept =
        Ends-definitions engine now _ e
        ∙ same_step (finished_step engine now outputs error i s w) there
            (done-definition engine now outputs error i s w) in
      go o kept (Ends-EndsAs engine now _ e) e
    where
      go :
          (o : Outcome)
          → definitions u ≡ definitions w
          → EndsAs engine now
              (build_step_context
                (change_step i (λ _. finished_step engine now outputs error i s w) w))
              o
              (change_step i (λ _. finished_step engine now outputs error i s w) w)
              u
          → Ends engine now
              (build_step_context
                (change_step i (λ _. finished_step engine now outputs error i s w) w))
              (change_step i (λ _. finished_step engine now outputs error i s w) w)
              o
              u
          → Follows report w (after_search now o u)
      go finished kept (id, state, at_end) e = record {
        same_id = id;
        same_definitions = kept;
        transition = completes (inr (inl state));
      }
      go (activated j) kept (h, _) e = record {
        same_id = h.same_id;
        same_definitions = kept;
        transition = completes (inl h.same_state);
      }
      go (reset_error j) kept h e = record {
        same_id = h.same_id;
        same_definitions = kept;
        transition = completes (inr (inr refl));
      }
      go out_of_fuel kept h e = absurd (Ends-ne-out_of_fuel engine now _ e)

  Completes-Follows :
      {w' : Workflow}
      → Completes engine now outputs error i s w w'
      → step_at w i ≡ some s
      → Follows report w w'
  Completes-Follows (retried delay bad e) there = record {
    same_id = unfold change_step in refl;
    same_definitions = same_step _ there (attempt-definition engine now outputs error i s w);
    transition = unfold change_step in completes (inl refl);
  }
  Completes-Follows (gave_up bad e) there = record {
    same_id = unfold change_step in refl;
    same_definitions = same_step _ there (attempt-definition engine now outputs error i s w);
    transition = completes (inr (inr refl));
  }
  Completes-Follows (ended good final) there = record {
    same_id = unfold change_step in refl;
    same_definitions = same_step _ there (done-definition engine now outputs error i s w);
    transition = completes (inr (inl refl));
  }
  Completes-Follows (searched o u good more e) there = after_search-Follows o u there e

module _ (engine : Engine) (now : ℕ) (workflow_id : String) where
  complete-Follows :
      (step_num : ℕ) (outputs : Dict) (error : Option String) (w : Workflow) (world : World)
      → load workflow_id world.store ≡ some w
      → FollowsResult
          (complete step_num outputs error)
          w
          (complete_step engine now workflow_id step_num outputs error world)
  complete-Follows step_num outputs error w world found =
      complete_step_ind engine now workflow_id (FollowsResult (complete step_num outputs error) w)
        (λ e. tt) w world found step_num outputs error
        (λ i s g a.
          of_Completes i s (complete_at engine now workflow_id i s outputs error w world) a
            (complete_at-Completes engine now outputs error i s w workflow_id world))
    where
      of_Completes :
          (i : ℕ) (s : Step) (r : Result)
          → step_at w i ≡ some s
          → CompletesResult engine now outputs error i s w r
          → FollowsResult (complete step_num outputs error) w r
      of_Completes i s (ok w' world') a c =
          Completes-Follows engine now outputs error i s w step_num c a
      of_Completes i s (raise e) a c = tt

  perform-FollowsResult :
      (call : Call) (w : Workflow) (world : World)
      → load workflow_id world.store ≡ some w
      → FollowsResult call w (perform engine now workflow_id call world)
  unfolding perform
  perform-FollowsResult start w world found = start-Follows engine now workflow_id w world found
  perform-FollowsResult pause w world found = pause-Follows engine now workflow_id w world found
  perform-FollowsResult resume w world found = resume-Follows engine now workflow_id w world found
  perform-FollowsResult cancel w world found = cancel-Follows engine now workflow_id w world found
  perform-FollowsResult (complete step_num outputs error) w world found =
      complete-Follows step_num outputs error w world found

-- A call on a stored workflow that succeeds leaves the id of the workflow and the definitions of its steps (all but
-- status, times, outputs, error and the two counters) as they were, and its state goes along the
-- diagram `Transition`.
pub perform-Follows :
    (engine : Engine) (now : ℕ) (workflow_id : String) (call : Call) (world : World)
    (v w : Workflow) (world' : World)
    → load workflow_id world.store ≡ some v
    → perform engine now workflow_id call world ≡ ok w world'
    → Follows call v w
perform-Follows engine now workflow_id call world v w world' found e =
    subst (FollowsResult call v) e (perform-FollowsResult engine now workflow_id call v world found)

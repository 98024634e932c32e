-- ===== src/Engine/Runnable.antt =====
-- `WorkflowEngine.get_runnable_steps` (nexus/core/workflow.py), against a description of the runnable
-- steps one by one.
use nexus_arc.Base.{
  ℕ, zero, suc, ◌+◌, ◌<◌, ◌≡◌, refl, Bool, false, not, ◌&&◌, ◌||◌, none, some, List, [], ◌∷◌, any,
  ◌==◌, arith, String, mem_text, get_elem?, if◌then◌else◌, inl, inr, Bool-cases, ==_iff,
}
use nexus_arc.Engine.Model.{Step, Workflow, WorkflowState, is_pending, get_step, step_at}
use nexus_arc.Engine.World.{World, load}

-- The loop over the steps: the indices of those that say that they run beside the current one.
unfoldable pub parallel_steps : String → ℕ → ℕ → List Step → List ℕ
parallel_steps name num i [] = []
parallel_steps name num i (s ∷ ss) =
    let rest = parallel_steps name num (suc i) ss in
    if s.step_num == num
    then rest
    else (if is_pending s.status && mem_text name s.parallel_with then i ∷ rest else rest)

unfoldable pub runnable_steps : Workflow → List ℕ
runnable_steps w = elim (get_step w w.current_step) [
  | none ↦ []
  | some i ↦ elim (step_at w i) [
    | none ↦ []
    | some s ↦
        let beside = parallel_steps s.name w.current_step 0 w.steps in
        if is_pending s.status then i ∷ beside else beside
  ]
]

unfoldable pub get_runnable_steps : String → World → List ℕ
get_runnable_steps workflow_id world = elim (load workflow_id world.store) [
  | none ↦ []
  | some w ↦ elim w.state [ WorkflowState.running ↦ runnable_steps w | _ ↦ [] ]
]

abbrev pub has_index : ℕ → List ℕ → Bool
has_index k = any (λ j. j == k)

-- Whether a step may run beside a step with the name and number.
abbrev pub runs_beside : String → ℕ → Step → Bool
runs_beside name num t =
    not (t.step_num == num) && (is_pending t.status && mem_text name t.parallel_with)

-- Whether the step with an index is runnable, where the current step has an index and a name.
abbrev pub is_runnable : Workflow → ℕ → String → ℕ → Bool
is_runnable w current name k = elim (step_at w k) [
  | none ↦ false
  | some t ↦ (k == current) && is_pending t.status || runs_beside name w.current_step t
]

has_index-below :
    (name : String) (num i k : ℕ) (ss : List Step)
    → k < i
    → has_index k (parallel_steps name num i ss) ≡ false
unfolding parallel_steps
has_index-below name num i k [] h = refl
has_index-below name num i k (s ∷ ss) h = ground (arith, h, has_index-below name num (suc i) k ss)

has_index-parallel_steps :
    (name : String) (num i d : ℕ) (ss : List Step)
    → has_index (i + d) (parallel_steps name num i ss)
      ≡ elim (get_elem? ss d) [ none ↦ false | some t ↦ runs_beside name num t ]
unfolding parallel_steps
has_index-parallel_steps name num i d [] = refl
has_index-parallel_steps name num i zero (s ∷ ss) =
    ground (arith, has_index-below name num (suc i) (i + 0) ss)
has_index-parallel_steps name num i (suc d) (s ∷ ss) =
    ground (arith, has_index-parallel_steps name num (suc i) d ss)

has_index-runnable_steps :
    (w : Workflow) (i k : ℕ) (s : Step)
    → get_step w w.current_step ≡ some i
    → step_at w i ≡ some s
    → has_index k (runnable_steps w) ≡ is_runnable w i s.name k
unfolding runnable_steps
has_index-runnable_steps w i k s g a =
    let beside = has_index-parallel_steps s.name w.current_step 0 k w.steps in
    rw (g, a, runnable_steps)
      (elim (Bool-cases (k == i)) [
        | inl e ↦ let same : k ≡ i = (==_iff k i).0 e in ground (arith, a, beside, e, same)
        | inr e ↦ ground (arith, a, beside, e)
      ])

-- The runnable steps of a running workflow whose current step exists are exactly the current step, if
-- it is pending, and the pending steps with another number that name it in `parallel_with`.
pub has_index-get_runnable_steps :
    (workflow_id : String) (world : World) (w : Workflow) (i k : ℕ) (s : Step)
    → load workflow_id world.store ≡ some w
    → w.state ≡ WorkflowState.running
    → get_step w w.current_step ≡ some i
    → step_at w i ≡ some s
    → has_index k (get_runnable_steps workflow_id world) ≡ is_runnable w i s.name k
unfolding get_runnable_steps
has_index-get_runnable_steps workflow_id world w i k s found runs g a =
    simp (found, runs, get_runnable_steps) ((has_index-runnable_steps w i k s g a))

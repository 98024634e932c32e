-- ===== src/StatePlugin/Status.antt =====
-- `get_workflow_status`: the status of the workflow of an issue, with the current step by its place in the list.
-- Left out of the answer are the dates and the metadata, which are those of the workflow.
use nexus_arc.Base.{
  ℕ, zero, suc, ◌+◌, ◌-◌, ◌<◌, ◌≡◌, refl, inl, inr, String, Bool, true, false, ◌&&◌, ◌==◌, Option,
  none, some, List, [], ◌∷◌, map, length, get_elem?, find_index, find_index-some, ltb, leb, codes,
  code_eq, strip, is_empty, arith, Option-cases, is_some, not, ◌||◌, subst, if◌then◌else◌,
}
use nexus_arc.Engine.Model.{Step, StepStatus, Workflow, WorkflowState}
use nexus_arc.Engine.Control.{get_workflow}
use nexus_arc.StatePlugin.Refs.{Text}
use nexus_arc.StatePlugin.Completion.{Plugin, PluginState, resolve_workflow_id}

abbrev upper_code : ℕ → ℕ
upper_code c = if leb b'a' c && leb c b'z' then c - 32 else c

-- `str(step.status)` of a member of the enumeration.
abbrev status_str : StepStatus → Text
status_str StepStatus.pending = codes "StepStatus.PENDING"
status_str StepStatus.running = codes "StepStatus.RUNNING"
status_str StepStatus.completed = codes "StepStatus.COMPLETED"
status_str StepStatus.failed = codes "StepStatus.FAILED"
status_str StepStatus.skipped = codes "StepStatus.SKIPPED"

-- `str(step.status).strip().upper() == "RUNNING"`
unfoldable pub reads_running : Step → Bool
reads_running s = code_eq (map upper_code (strip (status_str s.status))) (codes "RUNNING")

-- The index of the current step: the step with the current number, else the number as an index from 0, else as
-- one from 1, else the first running step, else the first.
unfoldable pub current_index : List Step → ℕ → ℕ
unfolding reads_running
current_index ss raw = elim (find_index (λ s. s.step_num == raw) ss) [
  | some i ↦ i
  | none ↦
      let running : ℕ = elim (find_index reads_running ss) [ some i ↦ i | none ↦ 0 ] in
      if ltb raw (length ss)
      then raw
      else if leb 1 raw && leb raw (length ss)
      then raw - 1
      else running
]

pub record Status : Type 0 where
  pub workflow_id : String
  pub name : String
  pub state : WorkflowState
  pub current_step : ℕ
  pub current_step_num : ℕ
  pub current_step_id : String
  pub current_step_name : String
  pub total_steps : ℕ
  pub current_agent_type : String
  pub current_agent : String
  pub steps : List (String × StepStatus × String × String)

abbrev pub or_unknown : String → String
or_unknown s = if is_empty s then "unknown" else s

unfoldable pub status_with : Workflow → ℕ → Option Step → Status
status_with w display o = record {
  workflow_id = w.id;
  name = w.name;
  state = w.state;
  current_step = display;
  current_step_num = elim o [ none ↦ 0 | some s ↦ s.step_num ];
  current_step_id = elim o [ none ↦ "" | some s ↦ s.name ];
  current_step_name = elim o [ none ↦ "unknown" | some s ↦ s.name ];
  total_steps = length w.steps;
  current_agent_type = elim o [ none ↦ "unknown" | some s ↦ or_unknown s.agent.name ];
  current_agent = elim o [
    | none ↦ "unknown"
    | some s ↦ if is_empty s.agent.display_name then s.agent.name else s.agent.display_name
  ];
  steps =
      map {B = String × StepStatus × String × String}
        (λ s. (s.name, s.status, s.agent.name, s.agent.display_name)) w.steps;
}

unfoldable pub status_at : Workflow → List Step → Status
unfolding status_with current_index
status_at w [] = status_with w 0 none
status_at w (s ∷ ss) =
    let i = current_index (s ∷ ss) w.current_step in status_with w (i + 1) (get_elem? (s ∷ ss) i)

unfoldable pub status_of : Workflow → Status
unfolding status_at
status_of w = status_at w w.steps

unfoldable pub get_workflow_status : Plugin → String → PluginState → Option Status
unfolding resolve_workflow_id get_workflow status_of
get_workflow_status plugin issue_number state = elim (resolve_workflow_id plugin issue_number) [
  | none ↦ none
  | some id ↦ elim (get_workflow plugin.policy id state.world) [
    | none ↦ none
    | some w ↦ some (status_of w)
  ]
]

find_index-lt {ℓ} :
    {A : Type ℓ} (p : A → Bool) (xs : List A) {i : ℕ} → find_index p xs ≡ some i → i < length xs
find_index-lt p [] h = absurd (ground (arith, h))
find_index-lt p (x ∷ xs) {i} h = elim (Option-cases (find_index p xs)) [
  | inl e ↦ ground (arith, h, e)
  | inr (j, e) ↦ ground (arith, h, e, find_index-lt p xs e)
]

-- The fallback compares the text of the member, not its name.
reads_running-false : (s : Step) → reads_running s ≡ false
unfolding reads_running
reads_running-false s = go s.status
  where
    go :
        (st : StepStatus)
        → code_eq (map upper_code (strip (status_str st))) (codes "RUNNING") ≡ false
    go StepStatus.pending = refl
    go StepStatus.running = refl
    go StepStatus.completed = refl
    go StepStatus.failed = refl
    go StepStatus.skipped = refl

find_index-reads_running : (ss : List Step) → find_index reads_running ss ≡ none
find_index-reads_running [] = refl
find_index-reads_running (s ∷ ss) = rw (reads_running-false s, find_index-reads_running ss)

current_index-lt : (ss : List Step) (raw : ℕ) → 0 < length ss → current_index ss raw < length ss
unfolding current_index
current_index-lt ss raw more = elim (Option-cases (find_index (λ s. s.step_num == raw) ss)) [
  | inr (i, e) ↦ rw (e, current_index) (find_index-lt (λ s. s.step_num == raw) ss e)
  | inl e ↦ rw (e, find_index-reads_running ss, current_index) (ground arith)
]

-- The step at the index has the number, if any step has it.
current_index-num :
    (ss : List Step) (raw : ℕ) (s : Step)
    → get_elem? ss (current_index ss raw) ≡ some s
    → (not (is_some (find_index (λ x. x.step_num == raw) ss)) || s.step_num == raw) ≡ true
unfolding current_index
current_index-num ss raw s there = elim (Option-cases (find_index (λ x. x.step_num == raw) ss)) [
  | inl e ↦ rw e refl
  | inr (i, e) ↦
      let (x, at_i, num) = find_index-some (λ x. x.step_num == raw) ss e in
      let there' : get_elem? ss i ≡ some s = rw (e, current_index) at there in
      let same : x ≡ s = ground (arith, at_i, there') in
      rw e (subst (λ (y : Step). (y.step_num == raw) ≡ true) same num)
]

get_elem?-lt {ℓ} :
    {A : Type ℓ} (xs : List A) (i : ℕ) → i < length xs → (x : A) × (get_elem? xs i ≡ some x)
get_elem?-lt [] i h = absurd (omega arith)
get_elem?-lt (x ∷ xs) zero h = (x, refl)
get_elem?-lt (x ∷ xs) (suc i) h = get_elem?-lt xs i (omega arith)

status_at-there :
    (w : Workflow) (ss : List Step) (s : Step)
    → 0 < length ss
    → get_elem? ss (current_index ss w.current_step) ≡ some s
    → status_at w ss ≡ status_with w (current_index ss w.current_step + 1) (some s)
unfolding status_at
status_at-there w [] s more there = absurd (omega arith)
status_at-there w (t ∷ ss) s more there = rw there

-- For a workflow with steps the status shows one of them: the current step is its place counted from
-- 1, at most the total, with its number, name and agent; and it has the workflow's current number, if any
-- step has that.
pub status_of_lem :
    (w : Workflow)
    → 0 < length w.steps
    → (i : ℕ) × (s : Step) × (get_elem? w.steps i ≡ some s)
      × ((status_of w).current_step ≡ i + 1)
      × (i < (status_of w).total_steps)
      × ((status_of w).current_step_num ≡ s.step_num)
      × ((status_of w).current_step_id ≡ s.name)
      × ((status_of w).current_agent_type ≡ or_unknown s.agent.name)
      × ((not (is_some (find_index (λ x. x.step_num == w.current_step) w.steps))
            || s.step_num == w.current_step)
          ≡ true)
unfolding status_of
status_of_lem w more =
    let i = current_index w.steps w.current_step in
    let lt = current_index-lt w.steps w.current_step more in
    let (s, there) = get_elem?-lt w.steps i lt in
    let is_there = status_at-there w w.steps s more there in
    (
      i,
      s,
      there,
      rw is_there (unfold status_with in refl),
      rw is_there (unfold status_with in lt),
      rw is_there (unfold status_with in refl),
      rw is_there (unfold status_with in refl),
      rw is_there (unfold status_with in refl),
      current_index-num w.steps w.current_step s there,
    )

current_index-lost :
    (ss : List Step) (raw : ℕ)
    → find_index (λ s. s.step_num == raw) ss ≡ none
    → length ss < raw
    → current_index ss raw ≡ 0
unfolding current_index
current_index-lost ss raw e beyond =
    rw (e, find_index-reads_running ss, current_index) (ground arith)

-- If no step has the current number and that is beyond the number of steps, the status shows the first
-- step, also where another one is running.
pub status_of-lost :
    (w : Workflow)
    → 0 < length w.steps
    → find_index (λ x. x.step_num == w.current_step) w.steps ≡ none
    → length w.steps < w.current_step
    → (status_of w).current_step ≡ 1
unfolding status_of
status_of-lost w more none_has beyond =
    let (s, there) =
      get_elem?-lt w.steps (current_index w.steps w.current_step)
        (current_index-lt w.steps w.current_step more) in
    rw (status_at-there w w.steps s more there) (
      unfold status_with in
      omega (arith, current_index-lost w.steps w.current_step none_has beyond))

-- ===== src/MergeQueue.antt =====
-- The merge queue: `HostStateManager.enqueue_merge_candidate` and `update_merge_candidate`
-- (nexus/core/state_manager.py), and the enqueueing of a finished workflow's pull requests
-- (nexus/core/merge_queue.py). The file of the queue is the list of its entries, in its order; to
-- load and to save it does not fail. Times are ticks of the clock, one instant in one call. A status
-- and a review mode are one of the literals that the code writes.
pub mod Urls
pub mod Worker
pub mod Inline
pub mod Kept
pub mod History
pub mod Approved
pub mod Pressed
pub mod Calls
pub mod Allowed
pub mod Settled
pub mod Worked
pub mod Taken
pub mod Tests
use nexus_arc.Base.{
  ℕ, String, Bool, true, false, not, ◌&&◌, ◌||◌, Option, none, some, List, [], ◌∷◌, ◌++◌, length,
  if◌then◌else◌, codes, code_eq, lower, strip, is_empty,
}
use nexus_arc.Engine.Values.{Value, text, dict, Dict, get}
use nexus_arc.StatePlugin.Refs.{Text, is_blank}

pub data ReviewMode : Type 0 where
  manual : ReviewMode
  auto : ReviewMode

pub data MergeStatus : Type 0 where
  pending_manual_review : MergeStatus
  pending_auto_merge : MergeStatus
  merging : MergeStatus
  blocked : MergeStatus
  failed_merge : MergeStatus
  merged : MergeStatus

abbrev pub is_auto : ReviewMode → Bool
is_auto auto = true
is_auto manual = false

abbrev pub is_pending_review : MergeStatus → Bool
is_pending_review pending_manual_review = true
is_pending_review _ = false

abbrev pub is_pending_merge : MergeStatus → Bool
is_pending_merge pending_auto_merge = true
is_pending_merge _ = false

-- `status in {"blocked", "failed"}`
abbrev pub is_stopped : MergeStatus → Bool
is_stopped blocked = true
is_stopped failed_merge = true
is_stopped _ = false

-- An entry of the queue. A key that the entry does not have is none; to have no `manual_override` is
-- to have a false one, which is all that is asked of it.
pub record Candidate : Type 0 where
  pub pr_url : Text
  pub issue : String
  pub project : String
  pub repo : String
  pub review_mode : ReviewMode
  pub status : MergeStatus
  pub source : String
  pub created_at : ℕ
  pub updated_at : ℕ
  pub manual_override : Bool
  pub last_error : Option Text
  pub merge_command : Option Text
  pub merge_result : Option Text
  pub merged_at : Option ℕ

abbrev pub Queue : Type 0
Queue = List (Text × Candidate)

-- `queue.get(pr_key)`
unfoldable pub get_candidate : Text → Queue → Option Candidate
get_candidate k [] = none
get_candidate k ((j, c) ∷ q) =
    let later = get_candidate k q in if code_eq j k then some c else later

-- `queue[pr_key] = item`: a key keeps its place.
unfoldable pub put_candidate : Text → Candidate → Queue → Queue
put_candidate k c [] = (k, c) ∷ []
put_candidate k c ((j, b) ∷ q) =
    let later = put_candidate k c q in if code_eq j k then (j, c) ∷ q else (j, b) ∷ later

-- What a person is told. The texts, buttons and links of it are left out.
pub data Alert : Type 0 where
  queue_updated : (issue project : String) (queued : ℕ) (mode : ReviewMode) → Alert
  not_merged : (issue pr_url : Text) (status : MergeStatus) (reason : Text) → Alert
  was_merged : (issue pr_url : Text) → Alert

-- The host: the queue's file, the entries emitted as "merge_queue_updated" and the alerts (the last
-- one first), the urls for which `merge_pull_request` was called (the last one first), and the time
-- of the worker's last run.
pub record Host : Type 0 where
  pub queue : Queue
  pub emitted : List Candidate
  pub alerts : List Alert
  pub merge_calls : List Text
  pub last_run : ℕ

abbrev pub alert : Alert → Host → Host
alert a h = record {
  queue = h.queue;
  emitted = h.emitted;
  alerts = a ∷ h.alerts;
  merge_calls = h.merge_calls;
  last_run = h.last_run;
}

-- `queue[pr_key] = item; save_merge_queue(queue); emit_transition(...)`
unfoldable pub store_candidate : Text → Candidate → Host → Host
store_candidate k c h = record {
  queue = put_candidate k c h.queue;
  emitted = c ∷ h.emitted;
  alerts = h.alerts;
  merge_calls = h.merge_calls;
  last_run = h.last_run;
}

-- What is not "auto" is taken as "manual".
unfoldable pub normalize_review_mode : Text → ReviewMode
normalize_review_mode value = if code_eq (lower (strip value)) (codes "auto") then auto else manual

abbrev pub pending_status : ReviewMode → MergeStatus
pending_status mode = if is_auto mode then pending_auto_merge else pending_manual_review

abbrev pub time_or : ℕ → Option Candidate → ℕ
time_or now none = now
time_or now (some c) = c.created_at

-- The entry of a pull request that is enqueued; an entry that is there already gives its time.
abbrev pub new_candidate :
    ℕ → String → String → String → Text → ReviewMode → String → Option Candidate → Candidate
new_candidate now issue project repo k mode source current = record {
  pr_url = k;
  issue = issue;
  project = project;
  repo = repo;
  review_mode = mode;
  status = pending_status mode;
  source = source;
  created_at = time_or now current;
  updated_at = now;
  manual_override = false;
  last_error = none;
  merge_command = none;
  merge_result = none;
  merged_at = none;
}

-- None if the url is blank, for which the method raises.
unfoldable pub enqueue_merge_candidate :
    ℕ → String → String → String → Text → ReviewMode → String → Host → Option (Candidate × Host)
enqueue_merge_candidate now issue project repo pr_url mode source h =
    let k = strip pr_url in
    let c = new_candidate now issue project repo k mode source (get_candidate k h.queue) in
    if is_blank k then none else some (c, store_candidate k c h)

-- `updated["updated_at"] = time.time()`
abbrev pub touch : ℕ → Candidate → Candidate
touch now c = record {
  pr_url = c.pr_url;
  issue = c.issue;
  project = c.project;
  repo = c.repo;
  review_mode = c.review_mode;
  status = c.status;
  source = c.source;
  created_at = c.created_at;
  updated_at = now;
  manual_override = c.manual_override;
  last_error = c.last_error;
  merge_command = c.merge_command;
  merge_result = c.merge_result;
  merged_at = c.merged_at;
}

-- The keyword arguments are a change of the entry. The entry is returned, none if there is none.
unfoldable pub update_merge_candidate :
    ℕ → Text → (Candidate → Candidate) → Host → Option Candidate × Host
update_merge_candidate now pr_url change h =
    let k = strip pr_url in
    if is_blank k then (none, h) else elim (get_candidate k h.queue) [
      | none ↦ (none, h)
      | some c ↦ (some (touch now (change c)), store_candidate k (touch now (change c)) h)
    ]

-- The text of a value that is no string is neither of the two modes.
abbrev pub mode_in : Value → ReviewMode
mode_in (text s) = normalize_review_mode (codes s)
mode_in _ = manual

-- The mode under `review_mode` of a section that is a dictionary.
abbrev pub section_mode : Option Value → Option ReviewMode
section_mode (some (dict d)) = elim (get "review_mode" d) [
  | none ↦ none
  | some v ↦ some (mode_in v)
]
section_mode _ = none

abbrev pub project_mode : Option Value → Option ReviewMode
project_mode (some (dict d)) = section_mode (get "merge_queue" d)
project_mode _ = none

-- The project's mode, else the global one, else manual.
unfoldable pub resolve_merge_queue_review_mode : Dict → String → ReviewMode
resolve_merge_queue_review_mode config project =
    elim (if is_empty project then none else project_mode (get project config)) [
      | some m ↦ m
      | none ↦ elim (section_mode (get "merge_queue" config)) [ some m ↦ m | none ↦ manual ]
    ]

-- The loop of `enqueue_merge_queue_prs`: a url that raises is skipped.
unfoldable pub enqueue_each :
    ℕ → String → String → String → ReviewMode → List Text → Host → List Candidate × Host
enqueue_each now issue project repo mode [] h = ([], h)
enqueue_each now issue project repo mode (u ∷ us) h =
    elim (enqueue_merge_candidate now issue project repo u mode "workflow_complete" h) [
      | none ↦ enqueue_each now issue project repo mode us h
      | some (c, h') ↦
          let (cs, last) = enqueue_each now issue project repo mode us h' in (c ∷ cs, last)
    ]

unfoldable pub enqueue_merge_queue_prs :
    Dict → ℕ → String → String → String → List Text → Host → List Candidate × Host
enqueue_merge_queue_prs config now issue project repo urls h =
    let mode = resolve_merge_queue_review_mode config project in
    let (cs, last) = enqueue_each now issue project repo mode urls h in
    elim cs [
      | [] ↦ ([], last)
      | c ∷ more ↦ (c ∷ more, alert (queue_updated issue project (length (c ∷ more)) mode) last)
    ]

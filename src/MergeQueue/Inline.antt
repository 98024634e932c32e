-- ===== src/MergeQueue/Inline.antt =====
-- nexus/core/callbacks/callback_inline_service.py: `handle_merge_queue_inline_action`, a person's press
-- of a button of the merge queue. Of the answer only the number of changed entries is kept.
use nexus_arc.Base.{
  ℕ, suc, String, Bool, ◌&&◌, ◌||◌, Option, none, some, [], ◌∷◌, if◌then◌else◌, str_eq,
}
use nexus_arc.MergeQueue.{
  ReviewMode, MergeStatus, pending_auto_merge, is_pending_review, is_stopped, pending_status,
  Candidate, Queue, Host, update_merge_candidate,
}
use nexus_arc.MergeQueue.Worker.{set_status}

abbrev pub is_approval : String → Bool
is_approval action = str_eq action "mqapprove" || str_eq action "mqmerge"

unfoldable pub target_status : String → MergeStatus → ReviewMode → Option MergeStatus
target_status action status mode =
    if str_eq action "mqapprove"
    then (if is_pending_review status then some pending_auto_merge else none)
    else if str_eq action "mqretry"
    then (if is_stopped status then some (pending_status mode) else none)
    else if str_eq action "mqmerge"
    then (if is_pending_review status || is_stopped status then some pending_auto_merge else none)
    else none

abbrev pub set_override : Bool → Candidate → Candidate
set_override override c = record {
  pr_url = c.pr_url;
  issue = c.issue;
  project = c.project;
  repo = c.repo;
  review_mode = c.review_mode;
  status = c.status;
  source = c.source;
  created_at = c.created_at;
  updated_at = c.updated_at;
  manual_override = override;
  last_error = c.last_error;
  merge_command = c.merge_command;
  merge_result = c.merge_result;
  merged_at = c.merged_at;
}

module _ (now : ℕ) (action issue project : String) where
  abbrev pub is_meant : Candidate → Bool
  is_meant c = str_eq c.issue issue && str_eq c.project project

  -- The new status of an entry, none if the loop passes over it.
  unfoldable pub new_status : Candidate → Option MergeStatus
  new_status c = if is_meant c then target_status action c.status c.review_mode else none

  -- The loop over the entries as they were loaded, with the number of changed ones.
  unfoldable pub press_each : Queue → ℕ → Host → ℕ × Host
  press_each [] n h = (n, h)
  press_each ((k, c) ∷ q) n h = elim (new_status c) [
    | none ↦ press_each q n h
    | some status ↦
        let (updated, next) =
          update_merge_candidate now k
            (λ b. set_override (is_approval action) (set_status status [] b)) h in
        elim updated [ none ↦ press_each q n next | some _ ↦ press_each q (suc n) next ]
  ]

  unfoldable pub handle_merge_queue_inline_action : Host → ℕ × Host
  handle_merge_queue_inline_action h = press_each h.queue 0 h

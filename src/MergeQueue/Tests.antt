-- ===== src/MergeQueue/Tests.antt =====
-- Runs of the merge queue on a small history.
use nexus_arc.Base.{◌≡◌, refl, true, false, none, some, ◌⊎◌, inl, inr, List, [], ◌∷◌, map, codes}
use nexus_arc.Engine.Values.{Value, text, empty, entry, get}
use nexus_arc.PromptBudget.{take}
use nexus_arc.StatePlugin.Refs.{Text}
use nexus_arc.MergeQueue.{
  manual, auto, pending_manual_review, pending_auto_merge, blocked, merged, MergeStatus, Candidate,
  Host, get_candidate, put_candidate, store_candidate, normalize_review_mode,
  enqueue_merge_candidate, update_merge_candidate, resolve_merge_queue_review_mode, enqueue_each,
  enqueue_merge_queue_prs,
}
use nexus_arc.MergeQueue.Urls.{
  raised, unsupported, parsed, all_digits, split_scheme, split_netloc, drop_params, urlparse,
  github_parts, parse_github_pr_url, gitlab_parts, parse_gitlab_mr_url,
}
use nexus_arc.MergeQueue.Worker.{
  Services, is_due, insert_by_time, sort_by_time, pending_candidates, status_for_error, issue_token,
  merge_refused, merge_done, merge_with, process_parsed, process_all, merge_queue_auto_merge_once,
}
use nexus_arc.MergeQueue.Inline.{
  target_status, new_status, press_each, handle_merge_queue_inline_action,
}
use nexus_arc.MergeQueue.History.{
  Event, finished, pressed, worked, happen, run_events, told_of, approval_after, may_merge,
}
use nexus_arc.MergeQueue.Settled.{closed_at}
use nexus_arc.MergeQueue.Allowed.{empty_host, merge_calls-allowed}
use nexus_arc.MergeQueue.Taken.{merge_queue_auto_merge_once_settles}

unfoldable pub queue_program : Unit {0}
unfolding get get_candidate put_candidate store_candidate normalize_review_mode
    enqueue_merge_candidate update_merge_candidate resolve_merge_queue_review_mode enqueue_each
    enqueue_merge_queue_prs all_digits split_scheme split_netloc drop_params urlparse github_parts
    parse_github_pr_url gitlab_parts parse_gitlab_mr_url insert_by_time sort_by_time
    pending_candidates status_for_error issue_token merge_refused merge_done merge_with
    process_parsed process_all merge_queue_auto_merge_once target_status new_status press_each
    handle_merge_queue_inline_action happen run_events told_of approval_after
queue_program = tt

github_url :
    parse_github_pr_url (λ netloc. false) (codes " https://github.com/acme/app/pull/12?diff=1 ")
    ≡ parsed (codes "acme/app") (codes "12")
unfolding queue_program
github_url = refl

github_issue_url :
    parse_github_pr_url (λ netloc. false) (codes "https://github.com/acme/app/issues/12")
    ≡ unsupported
unfolding queue_program
github_issue_url = refl

gitlab_url :
    parse_gitlab_mr_url
      (λ netloc. false)
      (codes "https://git.acme.org/team/sub/app/-/merge_requests/8#note")
    ≡ parsed (codes "team/sub/app") (codes "8")
unfolding queue_program
gitlab_url = refl

old_gitlab_url :
    parse_gitlab_mr_url (λ netloc. false) (codes "https://git.acme.org/team/app/merge_requests/8")
    ≡ parsed (codes "team/app") (codes "8")
unfolding queue_program
old_gitlab_url = refl

half_bracket_url :
    parse_github_pr_url (λ netloc. false) (codes "https://[github.com/acme/app/pull/12") ≡ raised
unfolding queue_program
half_bracket_url = refl

abbrev pr : Text
pr = codes "https://github.com/acme/app/pull/12"

abbrev services : (Text ⊎ Text) → Services
services answer = record {
  interval = 60;
  platform_of = λ project. some (codes "github");
  is_address = λ netloc. false;
  resolve_issue_token = none;
  require_token = false;
  merge_pull_request = λ now repo number token. answer;
}

abbrev well : Services
well = services (inr (codes "merged"))

abbrev enqueued : Event
enqueued = finished 100 "7" "demo" "acme/app" (pr ∷ [])

abbrev approved : Event
approved = pressed 110 "mqapprove" "7" "demo"

abbrev statuses : Host → List MergeStatus
statuses h = map (λ e. e.1.status) h.queue

not_approved_yet :
    statuses (run_events empty well (enqueued ∷ worked 200 ∷ []) empty_host)
    ≡ pending_manual_review ∷ []
unfolding queue_program
not_approved_yet = refl

approved_and_merged :
    statuses (run_events empty well (enqueued ∷ approved ∷ worked 200 ∷ []) empty_host)
    ≡ merged ∷ []
unfolding queue_program
approved_and_merged = refl

review_missing :
    statuses (
      run_events empty
        (services (inl (codes "Review required")))
        (enqueued ∷ approved ∷ worked 200 ∷ [])
        empty_host)
    ≡ blocked ∷ []
unfolding queue_program take
review_missing = refl

enqueued_again :
    statuses (run_events empty well (enqueued ∷ approved ∷ worked 200 ∷ enqueued ∷ []) empty_host)
    ≡ pending_manual_review ∷ []
unfolding queue_program
enqueued_again = refl

automatic :
    resolve_merge_queue_review_mode
      (entry "demo"
        (Value.dict
          (entry "merge_queue" (Value.dict (entry "review_mode" (text " Auto ") empty)) empty))
        empty)
      "demo"
    ≡ auto
unfolding queue_program
automatic = refl

merge_calls-allowed_example :
    may_merge (approval_after pr empty (enqueued ∷ approved ∷ []) none) ≡ true
unfolding queue_program
merge_calls-allowed_example = merge_calls-allowed empty well (enqueued ∷ approved ∷ []) 200 pr refl

abbrev approved_entry : Candidate
approved_entry = record {
  pr_url = pr;
  issue = "7";
  project = "demo";
  repo = "acme/app";
  review_mode = manual;
  status = pending_auto_merge;
  source = "workflow_complete";
  created_at = 100;
  updated_at = 110;
  manual_override = true;
  last_error = some [];
  merge_command = none;
  merge_result = none;
  merged_at = none;
}

merge_queue_auto_merge_once_settles_example :
    (is_due approved_entry ≡ true
      → closed_at pr (
          merge_queue_auto_merge_once well 200
            (run_events empty well (enqueued ∷ approved ∷ []) empty_host))
        ≡ true)
    × (is_due approved_entry ≡ false
        → get_candidate pr
            (merge_queue_auto_merge_once well 200
              (run_events empty well (enqueued ∷ approved ∷ []) empty_host)).queue
          ≡ some approved_entry)
unfolding queue_program
merge_queue_auto_merge_once_settles_example =
    merge_queue_auto_merge_once_settles empty well (enqueued ∷ approved ∷ []) 200 pr approved_entry
      refl refl refl

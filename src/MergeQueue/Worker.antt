-- ===== src/MergeQueue/Worker.antt =====
-- nexus/core/merge_queue.py: the worker that merges what is pending,
-- `merge_queue_auto_merge_once_with_token_resolver`. Errors and outputs are their texts.
use nexus_arc.Base.{
  ℕ, ◌+◌, Bool, true, false, ◌&&◌, ◌||◌, Option, none, some, ◌⊎◌, inl, inr, List, [], ◌∷◌, ◌++◌,
  map, leb, ltb, any, keep, contains, if◌then◌else◌, codes, code_eq, lower, strip,
}
use nexus_arc.PromptBudget.{take}
use nexus_arc.StatePlugin.Refs.{Text, is_blank}
use nexus_arc.MergeQueue.{
  MergeStatus, blocked, failed_merge, merging, merged, is_auto, is_pending_merge, Candidate, Host,
  not_merged, was_merged, alert, update_merge_candidate,
}
use nexus_arc.MergeQueue.Urls.{
  Parsed, raised, unsupported, parsed, parse_github_pr_url, parse_gitlab_mr_url,
}

-- What the worker calls: the configured platform of a project (none if it raises
-- KeyError, as for a project that is not configured), the test of addresses in urls, the tokens of requesters (none if there
-- is no resolver) and the platform's merge of a pull request at a time, with the making of its
-- client; each of the last two has the text of an exception on the left.
pub record Services : Type 0 where
  pub interval : ℕ
  pub platform_of : Text → Option Text
  pub is_address : Text → Bool
  pub resolve_issue_token : Option (Text → Text → Text → Text ⊎ Text)
  pub require_token : Bool
  pub merge_pull_request : ℕ → Text → Text → Text → Text ⊎ Text

-- The pending entries that may be merged without a further approval.
abbrev pub is_due : Candidate → Bool
is_due c = is_pending_merge c.status && (is_auto c.review_mode || c.manual_override)

-- `pending.sort(key=created_at)`: a stable sort.
unfoldable pub insert_by_time : Candidate → List Candidate → List Candidate
insert_by_time c [] = c ∷ []
insert_by_time c (b ∷ bs) =
    let later = insert_by_time c bs in
    if leb c.created_at b.created_at then c ∷ b ∷ bs else b ∷ later

unfoldable pub sort_by_time : List Candidate → List Candidate
sort_by_time [] = []
sort_by_time (c ∷ cs) = insert_by_time c (sort_by_time cs)

unfoldable pub pending_candidates : Host → List Candidate
pending_candidates h = sort_by_time (keep is_due (map (λ e. e.1) h.queue))

-- The words of an error for which an entry is blocked, not failed.
abbrev blocking_words : List Text
blocking_words =
    codes "review"
    ∷ codes "check"
    ∷ codes "required"
    ∷ codes "conflict"
    ∷ codes "pipeline"
    ∷ codes "not mergeable"
    ∷ codes "unsupported"
    ∷ codes "missing_repo"
    ∷ codes "requester token"
    ∷ []

unfoldable pub status_for_error : Text → MergeStatus
status_for_error error =
    if any (λ word. contains word (lower error)) blocking_words then blocked else failed_merge

abbrev pub text_else : Text → Text → Text
text_else [] other = other
text_else (c ∷ cs) other = c ∷ cs

-- The changes of an entry that the worker makes; `updated_at` is set by the update.
module _ (status : MergeStatus) (error : Text) where
  abbrev pub set_status : Candidate → Candidate
  set_status c = record {
    pr_url = c.pr_url;
    issue = c.issue;
    project = c.project;
    repo = c.repo;
    review_mode = c.review_mode;
    status = status;
    source = c.source;
    created_at = c.created_at;
    updated_at = c.updated_at;
    manual_override = c.manual_override;
    last_error = some error;
    merge_command = c.merge_command;
    merge_result = c.merge_result;
    merged_at = c.merged_at;
  }

abbrev pub set_command : Text → Candidate → Candidate
set_command command c = record {
  pr_url = c.pr_url;
  issue = c.issue;
  project = c.project;
  repo = c.repo;
  review_mode = c.review_mode;
  status = c.status;
  source = c.source;
  created_at = c.created_at;
  updated_at = c.updated_at;
  manual_override = c.manual_override;
  last_error = c.last_error;
  merge_command = some command;
  merge_result = c.merge_result;
  merged_at = c.merged_at;
}

abbrev pub set_result : ℕ → Text → Candidate → Candidate
set_result now output c = record {
  pr_url = c.pr_url;
  issue = c.issue;
  project = c.project;
  repo = c.repo;
  review_mode = c.review_mode;
  status = c.status;
  source = c.source;
  created_at = c.created_at;
  updated_at = c.updated_at;
  manual_override = false;
  last_error = c.last_error;
  merge_command = c.merge_command;
  merge_result = some output;
  merged_at = some now;
}

abbrev pub note_call : Text → Host → Host
note_call pr_url h = record {
  queue = h.queue;
  emitted = h.emitted;
  alerts = h.alerts;
  merge_calls = pr_url ∷ h.merge_calls;
  last_run = h.last_run;
}

module _ (services : Services) (now : ℕ) where
  open services use {platform_of, resolve_issue_token, require_token, merge_pull_request}

  -- The token, on the right, or the text of the exception raised before the platform is asked.
  unfoldable pub issue_token : Text → Text → Text → Text ⊎ Text
  issue_token project repo issue =
      let missing =
        codes "No requester token available for "
        ++ project
        ++ b'/' ∷ repo
        ++ codes " issue #"
        ++ issue in
      if is_blank repo then inl (codes "missing_repo") else elim resolve_issue_token [
        | none ↦ if require_token then inl missing else inr []
        | some resolve ↦ elim (resolve project repo issue) [
          | inl e ↦ inl e
          | inr token ↦ if require_token && is_blank token then inl missing else inr token
        ]
      ]

  module _ (pr_url issue command : Text) where
    -- The `except` branch.
    unfoldable pub merge_refused : Text → Host → Host
    merge_refused error h =
        let shown = take 500 (strip error) in
        let reason = text_else shown (codes "merge_error") in
        let status = status_for_error shown in
        alert (not_merged issue pr_url status reason)
          (update_merge_candidate now pr_url (λ c. set_command command (set_status status reason c))
            h).1

    unfoldable pub merge_done : Text → Host → Host
    merge_done output h =
        alert (was_merged issue pr_url)
          (update_merge_candidate now pr_url
            (λ c. set_command command (set_result now (take 500 output) (set_status merged [] c)))
            h).1

    -- The `try` statement, with what follows it.
    unfoldable pub merge_with : Text → Text → Text → Host → Host
    merge_with project repo number h = elim (issue_token project repo issue) [
      | inl e ↦ merge_refused e h
      | inr token ↦ elim (merge_pull_request now repo number token) [
        | inl e ↦ merge_refused e (note_call pr_url h)
        | inr output ↦ merge_done output (note_call pr_url h)
      ]
    ]

  -- `str(_get_project_platform(project_name) or "github").strip().lower()`; blank where that raises,
  -- after which nothing reads it.
  abbrev pub platform_name : Option Text → Text
  platform_name none = []
  platform_name (some configured) =
      lower (strip (text_else (lower (strip configured)) (codes "github")))

  abbrev pub platform_type : Text → Text
  platform_type project = platform_name (platform_of project)

  abbrev parse_on : Option Text → Text → Parsed
  parse_on none pr_url = raised
  parse_on (some configured) pr_url =
      if code_eq (platform_name (some configured)) (codes "gitlab")
      then parse_gitlab_mr_url services.is_address pr_url
      else parse_github_pr_url services.is_address pr_url

  abbrev pub parse_for : Text → Text → Parsed
  parse_for project pr_url = parse_on (platform_of project) pr_url

  -- With the parsed url.
  unfoldable pub process_parsed : Candidate → Parsed → Host → Bool × Host
  process_parsed c p h =
      let pr_url = strip c.pr_url in
      let project = strip (codes c.project) in
      elim p [
        | raised ↦ (false, h)
        | unsupported ↦ (
          true,
          (update_merge_candidate now pr_url (set_status blocked (codes "unsupported_pr_url")) h).1,
        )
        | parsed repo number ↦ (
          true,
          merge_with pr_url (strip (codes c.issue))
              (platform_type project ++ codes ":merge_pull_request " ++ number) project
              (text_else (strip (codes c.repo)) repo) number
              (update_merge_candidate now pr_url (set_status merging []) h).1,
        )
      ]

  -- One iteration of the loop, and whether it goes on: a project without a platform and an invalid url
  -- raise out of the method.
  abbrev pub process_candidate : Candidate → Host → Bool × Host
  process_candidate c h = process_parsed c (parse_for (strip (codes c.project)) (strip c.pr_url)) h

  unfoldable pub process_all : List Candidate → Host → Host
  process_all [] h = h
  process_all (c ∷ cs) h =
      let (goes_on, next) = process_candidate c h in
      let rest = process_all cs next in if goes_on then rest else next

  abbrev pub mark_run : Host → Host
  mark_run h = record {
    queue = h.queue;
    emitted = h.emitted;
    alerts = h.alerts;
    merge_calls = h.merge_calls;
    last_run = now;
  }

  unfoldable pub merge_queue_auto_merge_once : Host → Host
  merge_queue_auto_merge_once h =
      if ltb now (h.last_run + services.interval)
      then h
      else process_all (pending_candidates h) (mark_run h)

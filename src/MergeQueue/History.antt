-- ===== src/MergeQueue/History.antt =====
-- Histories of the merge queue: pull requests of finished workflows are enqueued, buttons are pressed
-- and the worker runs; and what a history says of one pull request alone.
use nexus_arc.Base.{
  ℕ, String, Bool, false, not, ◌&&◌, ◌||◌, Option, none, some, List, [], ◌∷◌, if◌then◌else◌, str_eq,
  code_eq, strip,
}
use nexus_arc.Engine.Values.{Dict}
use nexus_arc.StatePlugin.Refs.{Text, is_blank}
use nexus_arc.MergeQueue.{
  ReviewMode, is_auto, Host, resolve_merge_queue_review_mode, enqueue_merge_queue_prs,
}
use nexus_arc.MergeQueue.Worker.{Services, merge_queue_auto_merge_once}
use nexus_arc.MergeQueue.Inline.{is_approval, handle_merge_queue_inline_action}

-- What happens to the queue, each at a time.
pub data Event : Type 0 where
  finished : (now : ℕ) (issue project repo : String) (urls : List Text) → Event
  pressed : (now : ℕ) (action issue project : String) → Event
  worked : (now : ℕ) → Event

module _ (config : Dict) (services : Services) where
  unfoldable pub happen : Event → Host → Host
  happen (finished now issue project repo urls) h =
      (enqueue_merge_queue_prs config now issue project repo urls h).1
  happen (pressed now action issue project) h =
      (handle_merge_queue_inline_action now action issue project h).1
  happen (worked now) h = merge_queue_auto_merge_once services now h

  unfoldable pub run_events : List Event → Host → Host
  run_events [] h = h
  run_events (e ∷ es) h = run_events es (happen e h)

-- What is known of a pull request since it was last enqueued: how, and whether a person approved it.
pub record Approval : Type 0 where
  pub mode : ReviewMode
  pub for_issue : String
  pub for_project : String
  pub approved : Bool

abbrev pub Approvals : Type 0
Approvals = Text → Option Approval

abbrev pub told_press : String → String → String → Option Approval → Option Approval
told_press action issue project none = none
told_press action issue project (some a) = some (record {
  mode = a.mode;
  for_issue = a.for_issue;
  for_project = a.for_project;
  approved =
      a.approved
      || (is_approval action && (str_eq a.for_issue issue && str_eq a.for_project project));
})

module _ (k : Text) where
  abbrev pub told_url : ReviewMode → String → String → Text → Option Approval → Option Approval
  told_url mode issue project u o =
      if not (is_blank (strip u)) && code_eq (strip u) k
      then some (record { mode = mode; for_issue = issue; for_project = project; approved = false })
      else o

  abbrev pub told_urls :
      ReviewMode → String → String → List Text → Option Approval → Option Approval
  told_urls mode issue project [] o = o
  told_urls mode issue project (u ∷ us) o =
      told_urls mode issue project us (told_url mode issue project u o)

  -- One event, told of the pull request alone.
  unfoldable pub told_of : Dict → Event → Option Approval → Option Approval
  told_of config (finished now issue project repo urls) o =
      told_urls (resolve_merge_queue_review_mode config project) issue project urls o
  told_of config (pressed now action issue project) o = told_press action issue project o
  told_of config (worked now) o = o

  unfoldable pub approval_after : Dict → List Event → Option Approval → Option Approval
  approval_after config [] o = o
  approval_after config (e ∷ es) o = approval_after config es (told_of config e o)

-- The pull request was enqueued for automatic merging, or approved since it was last enqueued.
abbrev pub may_merge : Option Approval → Bool
may_merge none = false
may_merge (some a) = is_auto a.mode || a.approved

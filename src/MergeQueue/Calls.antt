-- ===== src/MergeQueue/Calls.antt =====
-- nexus/core/merge_queue.py: the calls of `merge_pull_request` that the worker makes, in a history of
-- the queue.
use nexus_arc.Base.{
  ℕ, ◌≡◌, refl, sym, ap, ◌∙◌, String, Bool, true, ◌&&◌, ◌||◌, some, List, [], ◌∷◌, ◌++◌, ◌+◌, codes,
  ltb, str_eq, strip, arith, if_ind, All-mono,
}
use nexus_arc.PromptBudget.{take}
use nexus_arc.StatePlugin.Refs.{Text}
use nexus_arc.MergeQueue.{
  blocked, merging, merged, Candidate, Host, get_candidate, update_merge_candidate,
}
use nexus_arc.MergeQueue.Urls.{Parsed, raised, unsupported, parsed}
use nexus_arc.MergeQueue.Worker.{
  Services, pending_candidates, set_status, set_command, set_result, note_call, text_else,
  status_for_error, platform_type, parse_for, mark_run, merge_refused, merge_done, process_parsed,
  process_all, merge_queue_auto_merge_once,
}
use nexus_arc.MergeQueue.Inline.{is_approval, handle_merge_queue_inline_action}
use nexus_arc.MergeQueue.Kept.{entries-found, merge_with_ind}
use nexus_arc.MergeQueue.History.{Approval, Approvals}
use nexus_arc.MergeQueue.Approved.{Agrees, IsKept, update-IsKept}
use nexus_arc.MergeQueue.Pressed.{pressed_on, IsPressed, press_each-IsKept}

module _ (f : Approvals) (now : ℕ) where
  module _ (action issue project : String) where
    -- An entry agrees still after the press, and is approved if the press means it and approves.
    pressed_on-Agrees :
        (k : Text) (c : Candidate)
        → Agrees k c (f k)
        → Agrees k c (pressed_on f now action issue project k)
          × IsPressed f now action issue project (k, c)
    pressed_on-Agrees k c (url, key, a, known, mode, same_issue, same_project, overrides) =
        let approves : Bool =
          is_approval action && (str_eq a.for_issue issue && str_eq a.for_project project) in
        let b : Approval = record {
          mode = a.mode;
          for_issue = a.for_issue;
          for_project = a.for_project;
          approved = a.approved || approves;
        } in
        let known' : pressed_on f now action issue project k ≡ some b = rw (known) refl in
        (
          (url, key, b, known', mode, same_issue, same_project, λ e. ground (arith, overrides e)),
          λ approval meant d e.
              let meant' : (str_eq a.for_issue issue && str_eq a.for_project project) ≡ true =
                rw (← same_issue, ← same_project) meant in
              let is_b : some b ≡ some d = sym known' ∙ e in
              let given : b ≡ d = cc is_b in
              sym (ap (λ x. x.approved) given) ∙ rw (approval, meant') (ground (arith)),
        )

    pub handle-IsKept :
        (h : Host)
        → IsKept f h.queue
        → IsKept
            (pressed_on f now action issue project)
            (handle_merge_queue_inline_action now action issue project h).1.queue
    unfolding handle_merge_queue_inline_action
    handle-IsKept h kept =
        press_each-IsKept f now action issue project h.queue 0 h
          (All-mono (λ (e : Text × Candidate). get_candidate e.0 h.queue ≡ some e.1)
            (λ (e : Text × Candidate). (strip e.0 ≡ e.0) × IsPressed f now action issue project e)
            h.queue
            (λ e found.
              let agreed = kept.entries_agree e.0 e.1 found in
              let (url, key, a, known, mode, same, same', overrides) = agreed in
              (key, (pressed_on-Agrees e.0 e.1 agreed).1))
            (entries-found h.queue kept.keys_unique))
          (record {
            keys_unique = kept.keys_unique;
            entries_agree = λ k c found. (pressed_on-Agrees k c (kept.entries_agree k c found)).0;
          })

  module _ (services : Services) where
    -- What the worker does to an entry gives no override.
    refused-IsKept :
        (u issue command error : Text) (h : Host)
        → IsKept f h.queue
        → IsKept f (merge_refused services now u issue command error h).queue
    unfolding merge_refused
    refused-IsKept u issue command error h kept =
        let shown = take 500 (strip error) in
        let reason = text_else shown (codes "merge_error") in
        update-IsKept f now u
          (λ c. set_command command (set_status (status_for_error shown) reason c)) h
          (λ c. (refl, refl, refl, refl, λ o. o)) kept

    done-IsKept :
        (u issue command output : Text) (h : Host)
        → IsKept f h.queue
        → IsKept f (merge_done services now u issue command output h).queue
    unfolding merge_done
    done-IsKept u issue command output h kept =
        update-IsKept f now u
          (λ c. set_command command (set_result now (take 500 output) (set_status merged [] c))) h
          (λ c. (refl, refl, refl, refl, λ o. absurd (ground (arith, o)))) kept

    process_parsed-IsKept :
        (c : Candidate) (p : Parsed) (h : Host)
        → IsKept f h.queue
        → IsKept f (process_parsed services now c p h).1.queue
    unfolding process_parsed
    process_parsed-IsKept c raised h kept = kept
    process_parsed-IsKept c unsupported h kept =
        update-IsKept f now (strip c.pr_url) (set_status blocked (codes "unsupported_pr_url")) h
          (λ c. (refl, refl, refl, refl, λ o. o)) kept
    process_parsed-IsKept c (parsed repo number) h kept =
        let u = strip c.pr_url in
        let issue = strip (codes c.issue) in
        let project = strip (codes c.project) in
        let command =
          platform_type services now project ++ codes ":merge_pull_request " ++ number in
        let kept' =
          update-IsKept f now u (set_status merging []) h (λ c. (refl, refl, refl, refl, λ o. o))
            kept in
        let next = (update_merge_candidate now u (set_status merging []) h).1 in
        merge_with_ind services now u issue command project (text_else (strip (codes c.repo)) repo)
          number next (λ x. IsKept f x.queue) (λ e. refused-IsKept u issue command e next kept')
          (λ e. refused-IsKept u issue command e (note_call u next) kept')
          (λ output. done-IsKept u issue command output (note_call u next) kept')

    process_all-IsKept :
        (cs : List Candidate) (h : Host)
        → IsKept f h.queue
        → IsKept f (process_all services now cs h).queue
    unfolding process_all
    process_all-IsKept [] h kept = kept
    process_all-IsKept (c ∷ cs) h kept =
        let p = parse_for services now (strip (codes c.project)) (strip c.pr_url) in
        let kept' = process_parsed-IsKept c p h kept in
        let next = (process_parsed services now c p h).1 in
        if_ind (λ x. IsKept f x.queue) (process_parsed services now c p h).0
          {x = process_all services now cs next} {y = next} (λ e. process_all-IsKept cs next kept')
          (λ e. kept')

    pub worked-IsKept :
        (h : Host) → IsKept f h.queue → IsKept f (merge_queue_auto_merge_once services now h).queue
    unfolding merge_queue_auto_merge_once
    worked-IsKept h kept =
        if_ind (λ x. IsKept f x.queue) (ltb now (h.last_run + services.interval)) {x = h}
          {y = process_all services now (pending_candidates h) (mark_run services now h)}
          (λ e. kept)
          (λ e. process_all-IsKept (pending_candidates h) (mark_run services now h) kept)

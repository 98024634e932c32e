-- ===== src/MergeQueue/Settled.antt =====
-- nexus/core/merge_queue.py: what a run of the worker leaves of the entries.
use nexus_arc.Base.{
  ℕ, ◌≡◌, refl, ap, ◌∙◌, inl, inr, Bool, true, false, Option, none, some, [], ◌++◌, codes,
  if◌then◌else◌, code_eq, code_eq_refl, is_space, strip, arith, Bool-cases, if_ind,
}
use nexus_arc.PromptBudget.{take}
use nexus_arc.StatePlugin.Refs.{Text, is_blank}
use nexus_arc.MergeQueue.{
  MergeStatus, blocked, failed_merge, merging, merged, Candidate, Queue, Host, get_candidate,
  store_candidate, touch, update_merge_candidate,
}
use nexus_arc.MergeQueue.Urls.{Parsed, raised, unsupported, parsed}
use nexus_arc.MergeQueue.Worker.{
  Services, set_status, set_command, set_result, note_call, text_else, status_for_error,
  platform_type, merge_refused, merge_done, process_parsed,
}
use nexus_arc.MergeQueue.Kept.{get_candidate-put_candidate, strip_by_idem, merge_with_ind}

-- An entry that the worker is done with.
abbrev pub is_closed : MergeStatus → Bool
is_closed blocked = true
is_closed failed_merge = true
is_closed merged = true
is_closed _ = false

-- Neither the platform of the project nor `urlparse` raises.
abbrev pub is_valid : Parsed → Bool
is_valid raised = false
is_valid unsupported = true
is_valid (parsed repo number) = true

abbrev pub closed_entry : Option Candidate → Bool
closed_entry none = false
closed_entry (some c) = is_closed c.status

abbrev pub closed_at : Text → Host → Bool
closed_at j h = closed_entry (get_candidate j h.queue)

-- The entry under a key is replaced by a closed one, and the others stay.
abbrev pub Closes : Text → Host → Host → Type 0
Closes u h x =
    (d : Candidate) × (is_closed d.status ≡ true)
    × ((j : Text)
        → get_candidate j x.queue ≡ (if code_eq u j then some d else get_candidate j h.queue))

updated-strip :
    (now : ℕ) (u : Text) (change : Candidate → Candidate) (h : Host) {b : Candidate}
    → is_blank (strip u) ≡ false
    → get_candidate (strip u) h.queue ≡ some b
    → (j : Text)
    → get_candidate j (update_merge_candidate now u change h).1.queue
      ≡ (if code_eq (strip u) j then some (touch now (change b)) else get_candidate j h.queue)
unfolding update_merge_candidate store_candidate
updated-strip now u change h {b} named found j =
    rw (named) (rw (found) (get_candidate-put_candidate (strip u) j (touch now (change b)) h.queue))

module _ (services : Services) (now : ℕ) (u : Text) (key : strip u ≡ u)
    (named : is_blank u ≡ false) where
  updated-at :
      (change : Candidate → Candidate) (h : Host) {b : Candidate}
      → get_candidate u h.queue ≡ some b
      → (j : Text)
      → get_candidate j (update_merge_candidate now u change h).1.queue
        ≡ (if code_eq u j then some (touch now (change b)) else get_candidate j h.queue)
  updated-at change h {b} found j =
      updated-strip now u change h (ap is_blank key ∙ named)
        (ap (λ x. get_candidate x h.queue) key ∙ found) j
      ∙ ap (λ x. if code_eq x j then some (touch now (change b)) else get_candidate j h.queue) key

  status_for_error-closed : (error : Text) → is_closed (status_for_error error) ≡ true
  unfolding status_for_error
  status_for_error-closed error =
      if_ind (λ s. is_closed s ≡ true) _ {x = blocked} {y = failed_merge} (λ e. refl) (λ e. refl)

  module _ (issue command : Text) (h : Host) {b : Candidate}
      (found : get_candidate u h.queue ≡ some b) where
    refused-Closes :
        (error : Text) → Closes u h (merge_refused services now u issue command error h)
    unfolding merge_refused
    refused-Closes error =
        let shown = take 500 (strip error) in
        let reason = text_else shown (codes "merge_error") in
        let change : Candidate → Candidate =
          λ c. set_command command (set_status (status_for_error shown) reason c) in
        (touch now (change b), status_for_error-closed shown, updated-at change h found)

    done-Closes : (output : Text) → Closes u h (merge_done services now u issue command output h)
    unfolding merge_done
    done-Closes output =
        let change : Candidate → Candidate =
          λ c. set_command command (set_result now (take 500 output) (set_status merged [] c)) in
        (touch now (change b), refl, updated-at change h found)

-- To close an entry after an update of it is to close it.
Closes-later :
    (u : Text) (h x : Host) (q : Queue) (b : Candidate)
    → ((j : Text) → get_candidate j q ≡ (if code_eq u j then some b else get_candidate j h.queue))
    → (d : Candidate) × (is_closed d.status ≡ true)
      × ((j : Text) → get_candidate j x.queue ≡ (if code_eq u j then some d else get_candidate j q))
    → Closes u h x
Closes-later u h x q b before (d, closed, after) = (
  d,
  closed,
  λ j. elim (Bool-cases (code_eq u j)) [
    | inl e ↦ after j ∙ rw (e) refl
    | inr e ↦ after j ∙ rw (e) (before j ∙ rw (e) refl)
  ],
)

module _ (services : Services) (now : ℕ) (c : Candidate)
    (named : is_blank (strip c.pr_url) ≡ false) where
  key : strip (strip c.pr_url) ≡ strip c.pr_url
  key = strip_by_idem is_space c.pr_url

  -- One iteration of the loop, for a valid url.
  pub process_parsed-Closes :
      (p : Parsed) (h : Host) {b : Candidate}
      → get_candidate (strip c.pr_url) h.queue ≡ some b
      → is_valid p ≡ true
      → Closes (strip c.pr_url) h (process_parsed services now c p h).1
  unfolding process_parsed
  process_parsed-Closes raised h found valid = absurd (ground (arith, valid))
  process_parsed-Closes unsupported h {b} found valid =
      let change : Candidate → Candidate = set_status blocked (codes "unsupported_pr_url") in
      (
        touch now (change b),
        refl,
        updated-at services now (strip c.pr_url) key named change h found,
      )
  process_parsed-Closes (parsed repo number) h {b} found valid =
      let u : Text = strip c.pr_url in
      let issue = strip (codes c.issue) in
      let project = strip (codes c.project) in
      let command = platform_type services now project ++ codes ":merge_pull_request " ++ number in
      let change : Candidate → Candidate = set_status merging [] in
      let next : Host = (update_merge_candidate now u change h).1 in
      let before = updated-at services now u key named change h found in
      let found' : get_candidate u next.queue ≡ some (touch now (change b)) =
        before u ∙ rw (code_eq_refl u) refl in
      merge_with_ind services now u issue command project (text_else (strip (codes c.repo)) repo)
        number next (Closes u h)
        (λ e.
          Closes-later u h (merge_refused services now u issue command e next) next.queue
            (touch now (change b)) before
            (refused-Closes services now u key named issue command next found' e))
        (λ e.
          Closes-later u h (merge_refused services now u issue command e (note_call u next))
            next.queue (touch now (change b)) before
            (refused-Closes services now u key named issue command (note_call u next) found' e))
        (λ output.
          Closes-later u h (merge_done services now u issue command output (note_call u next))
            next.queue (touch now (change b)) before
            (done-Closes services now u key named issue command (note_call u next) found' output))

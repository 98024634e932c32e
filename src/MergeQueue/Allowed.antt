-- ===== src/MergeQueue/Allowed.antt =====
-- nexus/core/merge_queue.py: which calls of `merge_pull_request` the worker makes after a history of
-- the queue.
use nexus_arc.Base.{
  ℕ, ◌≡◌, refl, ap, ◌∙◌, ◌⊎◌, inl, inr, Bool, true, false, none, some, List, [], ◌∷◌, ◌++◌, ◌+◌,
  codes, map, keep, count_if, ltb, leb, code_eq, code_eq→eq, strip, arith, Bool-cases, if_ind, All,
  All-mono, All-map,
}
use nexus_arc.Engine.Values.{Dict}
use nexus_arc.StatePlugin.Refs.{Text}
use nexus_arc.MergeQueue.{
  blocked, merging, Candidate, Host, get_candidate, store_candidate, update_merge_candidate,
}
use nexus_arc.MergeQueue.Urls.{Parsed, raised, unsupported, parsed}
use nexus_arc.MergeQueue.Worker.{
  Services, is_due, insert_by_time, sort_by_time, pending_candidates, set_status, note_call,
  text_else, platform_type, parse_for, mark_run, merge_refused, merge_done, merge_with,
  process_parsed, process_all, merge_queue_auto_merge_once,
}
use nexus_arc.MergeQueue.Kept.{entries-found, update_ind, merge_with_ind}
use nexus_arc.MergeQueue.History.{
  Event, finished, pressed, worked, happen, run_events, Approvals, told_of, approval_after,
  may_merge,
}
use nexus_arc.MergeQueue.Approved.{Agrees, IsKept, prs-IsKept}
use nexus_arc.MergeQueue.Calls.{handle-IsKept, worked-IsKept}

pub All-keep {ℓ κ} :
    {A : Type ℓ} (P : A → Type κ) (p : A → Bool) (xs : List A)
    → All (λ x. p x ≡ true → P x) xs
    → All P (keep p xs)
All-keep P p [] a = tt
All-keep P p (x ∷ xs) a = elim (Bool-cases (p x)) [
  | inl e ↦ rw (e) (a.0 e, All-keep P p xs a.1)
  | inr e ↦ rw (e) (All-keep P p xs a.1)
]

module _ {ℓ} (P : Candidate → Type ℓ) where
  All-insert_by_time :
      (c : Candidate) (cs : List Candidate) → P c → All P cs → All P (insert_by_time c cs)
  unfolding insert_by_time
  All-insert_by_time c [] p a = (p, tt)
  All-insert_by_time c (b ∷ bs) p a = elim (Bool-cases (leb c.created_at b.created_at)) [
    | inl e ↦ rw (e) (p, a)
    | inr e ↦ rw (e) (a.0, All-insert_by_time c bs p a.1)
  ]

  pub All-sort_by_time : (cs : List Candidate) → All P cs → All P (sort_by_time cs)
  unfolding sort_by_time
  All-sort_by_time [] a = tt
  All-sort_by_time (c ∷ cs) a = All-insert_by_time c (sort_by_time cs) a.0 (All-sort_by_time cs a.1)

-- What the worker takes up may be merged.
pending_candidates-allowed :
    (f : Approvals) (h : Host)
    → IsKept f h.queue
    → All (λ c. may_merge (f (strip c.pr_url)) ≡ true) (pending_candidates h)
unfolding pending_candidates
pending_candidates-allowed f h kept =
    All-sort_by_time (λ c. may_merge (f (strip c.pr_url)) ≡ true)
      (keep is_due (map (λ e. e.1) h.queue))
      (All-keep (λ c. may_merge (f (strip c.pr_url)) ≡ true) is_due (map (λ e. e.1) h.queue)
        (All-map (λ c. is_due c ≡ true → may_merge (f (strip c.pr_url)) ≡ true) (λ e. e.1) h.queue
          (All-mono (λ (e : Text × Candidate). get_candidate e.0 h.queue ≡ some e.1)
            (λ (e : Text × Candidate). is_due e.1 ≡ true → may_merge (f (strip e.1.pr_url)) ≡ true)
            h.queue (λ e found due. allowed e.0 e.1 (kept.entries_agree e.0 e.1 found) due)
            (entries-found h.queue kept.keys_unique))))
  where
    allowed :
        (k : Text) (c : Candidate)
        → Agrees k c (f k)
        → is_due c ≡ true
        → may_merge (f (strip c.pr_url)) ≡ true
    allowed k c (url, key, a, known, mode, same, same', overrides) due =
        let at_k : strip c.pr_url ≡ k = ap strip url ∙ key in
        rw (at_k) (rw (known) (ground (arith, due, mode, overrides)))

module _ (services : Services) (now : ℕ) (k : Text) where
  abbrev calls : Host → ℕ
  calls h = count_if (code_eq k) h.merge_calls

  update-calls :
      (u : Text) (change : Candidate → Candidate) (h : Host)
      → calls (update_merge_candidate now u change h).1 ≡ calls h
  unfolding store_candidate
  update-calls u change h =
      update_ind now u change h (λ x. calls x ≡ calls h) refl (λ c found. refl)

  -- An attempt for another pull request.
  merge_with-calls :
      (u issue command project repo number : Text) (h : Host)
      → code_eq k u ≡ false
      → calls (merge_with services now u issue command project repo number h) ≡ calls h
  unfolding merge_refused merge_done
  merge_with-calls u issue command project repo number h other =
      let noted : calls (note_call u h) ≡ calls h = rw (other) refl in
      merge_with_ind services now u issue command project repo number h (λ x. calls x ≡ calls h)
        (λ e. update-calls u _ h) (λ e. update-calls u _ (note_call u h) ∙ noted)
        (λ output. update-calls u _ (note_call u h) ∙ noted)

  process_parsed-calls :
      (c : Candidate) (p : Parsed) (h : Host)
      → code_eq k (strip c.pr_url) ≡ false
      → calls (process_parsed services now c p h).1 ≡ calls h
  unfolding process_parsed
  process_parsed-calls c raised h other = refl
  process_parsed-calls c unsupported h other =
      update-calls (strip c.pr_url) (set_status blocked (codes "unsupported_pr_url")) h
  process_parsed-calls c (parsed repo number) h other =
      let u = strip c.pr_url in
      let issue = strip (codes c.issue) in
      let project = strip (codes c.project) in
      let command = platform_type services now project ++ codes ":merge_pull_request " ++ number in
      merge_with-calls u issue command project (text_else (strip (codes c.repo)) repo) number
        (update_merge_candidate now u (set_status merging []) h).1 other
      ∙ update-calls u (set_status merging []) h

  module _ (f : Approvals) where
    -- The pull request was not merged now, or it might be.
    abbrev IsAllowed : Host → Host → Type 0
    IsAllowed h x = (calls x ≡ calls h) ⊎ (may_merge (f k) ≡ true)

    process_all-IsAllowed :
        (cs : List Candidate) (h : Host)
        → All (λ c. may_merge (f (strip c.pr_url)) ≡ true) cs
        → IsAllowed h (process_all services now cs h)
    unfolding process_all
    process_all-IsAllowed [] h a = inl refl
    process_all-IsAllowed (c ∷ cs) h (may, a) = elim (Bool-cases (code_eq k (strip c.pr_url))) [
      | inl e ↦ inr (ap (λ j. may_merge (f j)) (code_eq→eq k (strip c.pr_url) e) ∙ may)
      | inr other ↦
          let p = parse_for services now (strip (codes c.project)) (strip c.pr_url) in
          let next = (process_parsed services now c p h).1 in
          let same = process_parsed-calls c p h other in
          if_ind (IsAllowed h) (process_parsed services now c p h).0
            {x = process_all services now cs next} {y = next}
            (λ e. elim (process_all-IsAllowed cs next a) [
              | inl later ↦ inl (later ∙ same)
              | inr may' ↦ inr may'
            ])
            (λ e. inl same)
    ]

    worked-IsAllowed :
        (h : Host) → IsKept f h.queue → IsAllowed h (merge_queue_auto_merge_once services now h)
    unfolding merge_queue_auto_merge_once
    worked-IsAllowed h kept =
        if_ind (IsAllowed h) (ltb now (h.last_run + services.interval)) {x = h}
          {y = process_all services now (pending_candidates h) (mark_run services now h)}
          (λ e. inl refl)
          (λ e.
            process_all-IsAllowed (pending_candidates h) (mark_run services now h)
              (pending_candidates-allowed f h kept))

module _ (config : Dict) (services : Services) where
  happen-IsKept :
      (f : Approvals) (e : Event) (h : Host)
      → IsKept f h.queue
      → IsKept (λ k. told_of k config e (f k)) (happen config services e h).queue
  unfolding happen told_of
  happen-IsKept f (finished now issue project repo urls) h kept =
      prs-IsKept f now config issue project repo urls h kept
  happen-IsKept f (pressed now action issue project) h kept =
      handle-IsKept f now action issue project h kept
  happen-IsKept f (worked now) h kept = worked-IsKept f now services h kept

  run_events-IsKept :
      (es : List Event) (f : Approvals) (h : Host)
      → IsKept f h.queue
      → IsKept (λ k. approval_after k config es (f k)) (run_events config services es h).queue
  unfolding run_events approval_after
  run_events-IsKept [] f h kept = kept
  run_events-IsKept (e ∷ es) f h kept =
      run_events-IsKept es (λ k. told_of k config e (f k)) (happen config services e h)
        (happen-IsKept f e h kept)

abbrev pub empty_host : Host
empty_host = record { queue = []; emitted = []; alerts = []; merge_calls = []; last_run = 0 }

-- What every history keeps.
pub history-IsKept :
    (config : Dict) (services : Services) (es : List Event)
    → IsKept (λ k. approval_after k config es none) (run_events config services es empty_host).queue
unfolding get_candidate
history-IsKept config services es =
    run_events-IsKept config services es (λ j. none) empty_host
      (record { keys_unique = tt; entries_agree = λ j c found. absurd (ground (arith, found)) })

-- Whatever was enqueued, pressed and worked off before, the worker calls merge_pull_request for
-- a pull request only if the pull request was enqueued for automatic merging, or a person approved it
-- since it was last enqueued.
pub merge_calls-allowed :
    (config : Dict) (services : Services) (es : List Event) (now : ℕ) (k : Text)
    → let h = run_events config services es empty_host in
      ltb
          (count_if (code_eq k) h.merge_calls)
          (count_if (code_eq k) (merge_queue_auto_merge_once services now h).merge_calls)
        ≡ true
      → may_merge (approval_after k config es none) ≡ true
merge_calls-allowed config services es now k called =
    elim (worked-IsAllowed services now k (λ j. approval_after j config es none)
      (run_events config services es empty_host) (history-IsKept config services es)) [
        | inl same ↦ absurd (ground (arith, called, same))
        | inr may ↦ may
      ]

-- ===== src/MergeQueue/Taken.antt =====
-- nexus/core/merge_queue.py: which entries a run of the worker takes up, and what is left of them.
use nexus_arc.Base.{
  ℕ, ◌≡◌, refl, sym, ap, ◌∙◌, inl, inr, String, Bool, true, false, ◌||◌, Option, none, some, List,
  [], ◌∷◌, ◌+◌, map, keep, any, all, ltb, is_some, code_eq, code_eq_refl, code_eq→eq, strip, arith,
  Bool-cases, All, All-mono, All-map,
}
use nexus_arc.Engine.Values.{Dict}
use nexus_arc.StatePlugin.Refs.{Text, is_blank}
use nexus_arc.MergeQueue.{
  ReviewMode, Candidate, Queue, Host, get_candidate, resolve_merge_queue_review_mode,
}
use nexus_arc.MergeQueue.Worker.{
  Services, is_due, insert_by_time, sort_by_time, pending_candidates, mark_run,
  merge_queue_auto_merge_once,
}
use nexus_arc.MergeQueue.Kept.{entries-found}
use nexus_arc.MergeQueue.History.{
  Event, finished, pressed, worked, run_events, Approval, Approvals, told_url, told_urls,
  told_press, told_of, approval_after,
}
use nexus_arc.MergeQueue.Approved.{IsKept}
use nexus_arc.MergeQueue.Allowed.{All-keep, All-sort_by_time, history-IsKept, empty_host}
use nexus_arc.MergeQueue.Settled.{is_valid, closed_at}
use nexus_arc.MergeQueue.Worked.{
  parse_of, is_under, IsReady, process_all-closed, process_all-others,
}

-- No pull request without a url is enqueued.
told_urls-named :
    (k : Text) (mode : ReviewMode) (issue project : String) (us : List Text) (o : Option Approval)
    → is_blank k ≡ true
    → o ≡ none
    → told_urls k mode issue project us o ≡ none
told_urls-named k mode issue project [] o blank nothing = nothing
told_urls-named k mode issue project (u ∷ us) o blank nothing =
    told_urls-named k mode issue project us (told_url k mode issue project u o) blank
      (elim (Bool-cases (code_eq (strip u) k)) [
        | inl e ↦
            let no_url : is_blank (strip u) ≡ true =
              ap is_blank (code_eq→eq (strip u) k e) ∙ blank in
            rw (no_url) nothing
        | inr e ↦ ground (arith, e, nothing)
      ])

approval_after-named :
    (k : Text) (config : Dict) (es : List Event) (o : Option Approval)
    → is_blank k ≡ true
    → o ≡ none
    → approval_after k config es o ≡ none
unfolding approval_after told_of
approval_after-named k config [] o blank nothing = nothing
approval_after-named k config (finished now issue project repo us ∷ es) o blank nothing =
    approval_after-named k config es _ blank (
      told_urls-named k (resolve_merge_queue_review_mode config project) issue project us o blank
        nothing)
approval_after-named k config (pressed now action issue project ∷ es) o blank nothing =
    approval_after-named k config es _ blank (ap (told_press action issue project) nothing)
approval_after-named k config (worked now ∷ es) o blank nothing =
    approval_after-named k config es o blank nothing

all→All {ℓ} : {A : Type ℓ} (p : A → Bool) (xs : List A) → all p xs ≡ true → All (λ x. p x ≡ true) xs
all→All p [] h = tt
all→All p (x ∷ xs) h = (ground (arith, h), all→All p xs (ground (arith, h)))

All-both {ℓ κ μ} :
    {A : Type ℓ} (P : A → Type κ) (Q : A → Type μ) (xs : List A)
    → All P xs
    → All Q xs
    → All (λ x. P x × Q x) xs
All-both P Q [] a b = tt
All-both P Q (x ∷ xs) a b = ((a.0, b.0), All-both P Q xs a.1 b.1)

-- Which entries the worker takes up.
any-insert_by_time :
    (p : Candidate → Bool) (c : Candidate) (cs : List Candidate)
    → any p (insert_by_time c cs) ≡ (p c || any p cs)
unfolding insert_by_time
any-insert_by_time p c [] = refl
any-insert_by_time p c (b ∷ bs) = ground (arith, any-insert_by_time p c bs)

any-sort_by_time : (p : Candidate → Bool) (cs : List Candidate) → any p (sort_by_time cs) ≡ any p cs
unfolding sort_by_time
any-sort_by_time p [] = refl
any-sort_by_time p (c ∷ cs) =
    any-insert_by_time p c (sort_by_time cs) ∙ ap (λ b. p c || b) (any-sort_by_time p cs)

any-due :
    (p : Candidate → Bool) (k : Text) (c : Candidate) (q : Queue)
    → get_candidate k q ≡ some c
    → is_due c ≡ true
    → p c ≡ true
    → any p (keep is_due (map (λ e. e.1) q)) ≡ true
unfolding get_candidate
any-due p k c [] found due passes = absurd (ground (arith, found))
any-due p k c ((j, b) ∷ q) found due passes = elim (Bool-cases (code_eq j k)) [
  | inl e ↦
      let is_c : some b ≡ some c = ground (arith, found, e) in
      let same : b ≡ c = cc is_c in
      let due_b : is_due b ≡ true = ap is_due same ∙ due in
      let passes_b : p b ≡ true = ap p same ∙ passes in rw (due_b) (rw (passes_b) refl)
  | inr e ↦
      let later : get_candidate k q ≡ some c = ground (arith, found, e) in
      ground (arith, any-due p k c q later due passes)
]

module _ (services : Services) (now : ℕ) (f : Approvals)
    (named : (k : Text) → is_blank k ≡ true → f k ≡ none) (h : Host) (kept : IsKept f h.queue) where
  found-named :
      (k : Text) (c : Candidate)
      → get_candidate k h.queue ≡ some c
      → (strip c.pr_url ≡ k) × (is_blank (strip c.pr_url) ≡ false)
  found-named k c found =
      let (url, key, a, known, mode, same, same', overrides) = kept.entries_agree k c found in
      let under : strip c.pr_url ≡ k = ap strip url ∙ key in
      let has_name : is_blank k ≡ false = elim (Bool-cases (is_blank k)) [
        | inl e ↦ absurd (ground (arith, named k e, known))
        | inr e ↦ e
      ] in
      (under, ap is_blank under ∙ has_name)

  -- What the worker takes up is due, and in the queue under its url.
  abbrev IsTaken : Candidate → Type 0
  IsTaken c =
      (is_blank (strip c.pr_url) ≡ false)
      × (get_candidate (strip c.pr_url) h.queue ≡ some c)
      × (is_due c ≡ true)

  pending_candidates-IsTaken : All IsTaken (pending_candidates h)
  unfolding pending_candidates
  pending_candidates-IsTaken = All-sort_by_time IsTaken (keep is_due (map (λ e. e.1) h.queue)) (
      All-keep IsTaken is_due (map (λ e. e.1) h.queue) (
        All-map (λ c. is_due c ≡ true → IsTaken c) (λ e. e.1) h.queue
          (All-mono (λ (e : Text × Candidate). get_candidate e.0 h.queue ≡ some e.1)
            (λ (e : Text × Candidate). is_due e.1 ≡ true → IsTaken e.1) h.queue
            (λ e found due.
              let (under, has_name) = found-named e.0 e.1 found in
              (has_name, ap (λ j. get_candidate j h.queue) under ∙ found, due))
            (entries-found h.queue kept.keys_unique))))

  any-taken :
      (k : Text) (c : Candidate) (cs : List Candidate)
      → get_candidate k h.queue ≡ some c
      → is_due c ≡ false
      → All IsTaken cs
      → any (is_under k) cs ≡ false
  any-taken k c [] found early a = refl
  any-taken k c (d ∷ ds) found early ((has_name, there, due), a) =
      elim (Bool-cases (is_under k d)) [
        | inl e ↦
            let at_k : get_candidate k h.queue ≡ some d =
              sym (ap (λ j. get_candidate j h.queue) (code_eq→eq (strip d.pr_url) k e)) ∙ there in
            let is_d : some c ≡ some d = sym found ∙ at_k in
            let same : c ≡ d = cc is_d in absurd (ground (arith, early, due, ap is_due same))
        | inr e ↦ rw (e) (any-taken k c ds found early a)
      ]

  module _
      (valid : all (λ c. is_valid (parse_of services now c)) (pending_candidates h) ≡ true) where
    pending_candidates-IsReady :
        All (IsReady services now (mark_run services now h)) (pending_candidates h)
    pending_candidates-IsReady =
        All-mono (λ c. IsTaken c × (is_valid (parse_of services now c) ≡ true))
          (IsReady services now (mark_run services now h)) (pending_candidates h)
          (λ c ((has_name, there, due), ok). (has_name, ap is_some there, ok))
          (All-both IsTaken (λ c. is_valid (parse_of services now c) ≡ true) (pending_candidates h)
            pending_candidates-IsTaken
            (all→All (λ c. is_valid (parse_of services now c)) (pending_candidates h) valid))

    worked-settles :
        (k : Text) (c : Candidate)
        → ltb now (h.last_run + services.interval) ≡ false
        → get_candidate k h.queue ≡ some c
        → let next = merge_queue_auto_merge_once services now h in
          (is_due c ≡ true → closed_at k next ≡ true)
          × (is_due c ≡ false → get_candidate k next.queue ≡ some c)
    unfolding merge_queue_auto_merge_once pending_candidates
    worked-settles k c due_run found =
        let under : is_under k c ≡ true =
          ap (λ j. code_eq j k) (found-named k c found).0 ∙ code_eq_refl k in
        rw (due_run) (
          (λ due.
              let taken : any (is_under k) (pending_candidates h) ≡ true =
                any-sort_by_time (is_under k) (keep is_due (map (λ e. e.1) h.queue))
                ∙ any-due (is_under k) k c h.queue found due under in
              process_all-closed services now k (pending_candidates h) (mark_run services now h)
                pending_candidates-IsReady (ground (arith, taken))),
          (λ early.
              process_all-others services now k (pending_candidates h) (mark_run services now h)
                pending_candidates-IsReady
                (any-taken k c (pending_candidates h) found early pending_candidates-IsTaken)
              ∙ found),
        )

-- After any history, a run of the worker that is due leaves every entry that it may merge merged, blocked
-- or failed, and every other entry as it was, if for no entry that it takes up the platform of the project
-- or the parse of the url raises.
pub merge_queue_auto_merge_once_settles :
    (config : Dict) (services : Services) (es : List Event) (now : ℕ) (k : Text) (c : Candidate)
    → let h = run_events config services es empty_host in
      ltb now (h.last_run + services.interval) ≡ false
      → all (λ d. is_valid (parse_of services now d)) (pending_candidates h) ≡ true
      → get_candidate k h.queue ≡ some c
      → let next = merge_queue_auto_merge_once services now h in
        (is_due c ≡ true → closed_at k next ≡ true)
        × (is_due c ≡ false → get_candidate k next.queue ≡ some c)
merge_queue_auto_merge_once_settles config services es now k c due_run valid found =
    worked-settles services now (λ j. approval_after j config es none)
      (λ j blank. approval_after-named j config es none blank refl)
      (run_events config services es empty_host) (history-IsKept config services es) valid k c
      due_run found

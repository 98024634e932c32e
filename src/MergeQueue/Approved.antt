-- ===== src/MergeQueue/Approved.antt =====
-- nexus/core/state_manager.py: what is kept of the approvals when pull requests are enqueued and
-- entries are updated.
use nexus_arc.Base.{
  ℕ, ◌≡◌, refl, sym, ◌∙◌, subst, inl, inr, String, true, false, Option, none, some, List, [], ◌∷◌,
  code_eq, code_eq_refl, code_eq→eq, is_space, strip, arith, Bool-cases, List-cases,
}
use nexus_arc.Engine.Values.{Dict}
use nexus_arc.StatePlugin.Refs.{Text, is_blank}
use nexus_arc.MergeQueue.{
  ReviewMode, Candidate, Queue, Host, get_candidate, new_candidate, put_candidate, store_candidate,
  touch, enqueue_merge_candidate, update_merge_candidate, resolve_merge_queue_review_mode,
  enqueue_each, enqueue_merge_queue_prs,
}
use nexus_arc.MergeQueue.Kept.{
  get_candidate-put_candidate, IsUnique, put_candidate-IsUnique, update_ind, strip_by_idem,
}
use nexus_arc.MergeQueue.History.{Approval, Approvals, told_url, told_urls}

-- An entry under its key, as far as approvals go.
abbrev pub Agrees : Text → Candidate → Option Approval → Type 0
Agrees k c o =
    (c.pr_url ≡ k)
    × (strip k ≡ k)
    × (a : Approval) × (o ≡ some a)
    × (c.review_mode ≡ a.mode)
    × (c.issue ≡ a.for_issue)
    × (c.project ≡ a.for_project)
    × (c.manual_override ≡ true → a.approved ≡ true)

pub record IsKept (approvals : Approvals) (q : Queue) : Type 0 where
  pub keys_unique : IsUnique q
  pub entries_agree :
      (k : Text) (c : Candidate) → get_candidate k q ≡ some c → Agrees k c (approvals k)

pub IsKept-same : (f g : Approvals) (q : Queue) → ((k : Text) → g k ≡ f k) → IsKept f q → IsKept g q
IsKept-same f g q same kept = record {
  keys_unique = kept.keys_unique;
  entries_agree = λ k c found. rw (same k) (kept.entries_agree k c found);
}

-- A stored entry that agrees keeps what is known.
pub put-IsKept :
    (f g : Approvals) (k : Text) (c : Candidate) (q : Queue)
    → IsKept f q
    → Agrees k c (g k)
    → ((j : Text) → code_eq k j ≡ false → g j ≡ f j)
    → IsKept g (put_candidate k c q)
put-IsKept f g k c q kept agreed others = record {
  keys_unique = put_candidate-IsUnique k c q kept.keys_unique;
  entries_agree = λ j d found. elim (Bool-cases (code_eq k j)) [
    | inl e ↦
        let stored : some d ≡ some c =
          sym found ∙ get_candidate-put_candidate k j c q ∙ rw (e) refl in
        let same : c ≡ d = cc stored in
        subst (λ i. Agrees i d (g i)) (code_eq→eq k j e) (subst (λ b. Agrees k b (g k)) same agreed)
    | inr e ↦
        let old : get_candidate j q ≡ some d =
          sym (get_candidate-put_candidate k j c q ∙ rw (e) refl) ∙ found in
        rw (others j e) (kept.entries_agree j d old)
  ];
}

-- A change of an entry that leaves alone what approvals are about, and gives no override.
abbrev pub IsHarmless : (Candidate → Candidate) → Type 0
IsHarmless change =
    (c : Candidate)
    → ((change c).pr_url ≡ c.pr_url)
      × ((change c).review_mode ≡ c.review_mode)
      × ((change c).issue ≡ c.issue)
      × ((change c).project ≡ c.project)
      × ((change c).manual_override ≡ true → c.manual_override ≡ true)

module _ (f : Approvals) (now : ℕ) where
  pub update-IsKept :
      (u : Text) (change : Candidate → Candidate) (h : Host)
      → IsHarmless change
      → IsKept f h.queue
      → IsKept f (update_merge_candidate now u change h).1.queue
  unfolding store_candidate
  update-IsKept u change h harmless kept =
      update_ind now u change h (λ x. IsKept f x.queue) kept
        (λ c found.
          let (url, key, a, known, mode, issue, project, overrides) =
            kept.entries_agree (strip u) c found in
          let (url', mode', issue', project', overrides') = harmless c in
          put-IsKept f f (strip u) (touch now (change c)) h.queue kept
            (
              url' ∙ url,
              key,
              a,
              known,
              mode' ∙ mode,
              issue' ∙ issue,
              project' ∙ project,
              λ e. overrides (overrides' e),
            )
            (λ j e. refl))

  module _ (issue project repo : String) (mode : ReviewMode) where
    -- A new entry: nobody approved it.
    abbrev IsNew : Text → Candidate → Type 0
    IsNew k c =
        (c.pr_url ≡ k)
        × (c.review_mode ≡ mode)
        × (c.issue ≡ issue)
        × (c.project ≡ project)
        × (c.manual_override ≡ false)

    enqueued-blank :
        (u : Text) (h : Host)
        → is_blank (strip u) ≡ true
        → enqueue_merge_candidate now issue project repo u mode "workflow_complete" h ≡ none
    unfolding enqueue_merge_candidate
    enqueued-blank u h e = rw (e) refl

    enqueued-some :
        (u : Text) (h : Host)
        → is_blank (strip u) ≡ false
        → (c : Candidate) × (enqueue_merge_candidate now issue project repo u mode
              "workflow_complete" h
            ≡ some (c, store_candidate (strip u) c h))
          × IsNew (strip u) c
    unfolding enqueue_merge_candidate
    enqueued-some u h e = (
      new_candidate now issue project repo (strip u) mode "workflow_complete"
          (get_candidate (strip u) h.queue),
      rw (e) refl,
      (refl, refl, refl, refl, refl),
    )

    new-IsKept :
        (u : Text) (g : Approvals) (c : Candidate) (q : Queue)
        → is_blank (strip u) ≡ false
        → IsNew (strip u) c
        → IsKept g q
        → IsKept (λ k. told_url k mode issue project u (g k)) (put_candidate (strip u) c q)
    new-IsKept u g c q e (url, mode', issue', project', overrides) kept =
        put-IsKept g (λ k. told_url k mode issue project u (g k)) (strip u) c q kept
          (
            url,
            strip_by_idem is_space u,
            record { mode = mode; for_issue = issue; for_project = project; approved = false },
            rw (e, code_eq_refl (strip u)) refl,
            mode',
            issue',
            project',
            λ h. ground (arith, h, overrides),
          )
          (λ j other. rw (e, other) refl)

    -- The urls enqueued, one after the other.
    enqueue_each-IsKept :
        (us : List Text) (g : Approvals) (h : Host)
        → IsKept g h.queue
        → IsKept
            (λ k. told_urls k mode issue project us (g k))
            (enqueue_each now issue project repo mode us h).1.queue
    unfolding enqueue_each store_candidate
    enqueue_each-IsKept [] g h kept = kept
    enqueue_each-IsKept (u ∷ us) g h kept = elim (Bool-cases (is_blank (strip u))) [
      | inl e ↦
          let same : (k : Text) → told_url k mode issue project u (g k) ≡ g k = λ k. rw e refl in
          rw (enqueued-blank u h e, enqueue_each)
            (enqueue_each-IsKept us (λ k. told_url k mode issue project u (g k)) h
              (IsKept-same g (λ k. told_url k mode issue project u (g k)) h.queue same kept))
      | inr e ↦
          let (c, done, new) = enqueued-some u h e in
          rw (done, enqueue_each)
            (enqueue_each-IsKept us (λ k. told_url k mode issue project u (g k))
              (store_candidate (strip u) c h) (new-IsKept u g c h.queue e new kept))
    ]

  pub prs-IsKept :
      (config : Dict) (issue project repo : String) (us : List Text) (h : Host)
      → IsKept f h.queue
      → IsKept
          (λ k. told_urls k (resolve_merge_queue_review_mode config project) issue project us (f k))
          (enqueue_merge_queue_prs config now issue project repo us h).1.queue
  unfolding enqueue_merge_queue_prs
  prs-IsKept config issue project repo us h kept =
      let mode = resolve_merge_queue_review_mode config project in
      let each = enqueue_each-IsKept issue project repo mode us f h kept in
      elim (List-cases (enqueue_each now issue project repo mode us h).0) [
        | inl e ↦ rw (e, enqueue_merge_queue_prs) each
        | inr (c, cs, e) ↦ rw (e, enqueue_merge_queue_prs) each
      ]

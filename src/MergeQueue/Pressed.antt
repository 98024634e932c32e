-- ===== src/MergeQueue/Pressed.antt =====
-- nexus/core/callbacks/callback_inline_service.py: what a press of a button does to the approvals.
use nexus_arc.Base.{
  ℕ, suc, ◌≡◌, refl, sym, ap, ◌∙◌, inl, inr, String, true, some, [], ◌∷◌, strip, arith, Bool-cases,
  Option-cases, All,
}
use nexus_arc.StatePlugin.Refs.{Text}
use nexus_arc.MergeQueue.{
  MergeStatus, Candidate, Queue, Host, store_candidate, touch, update_merge_candidate,
}
use nexus_arc.MergeQueue.Worker.{set_status}
use nexus_arc.MergeQueue.Inline.{is_approval, set_override, is_meant, new_status, press_each}
use nexus_arc.MergeQueue.Kept.{update_ind}
use nexus_arc.MergeQueue.History.{Approval, Approvals, told_press}
use nexus_arc.MergeQueue.Approved.{IsKept, put-IsKept}

module _ (f : Approvals) (now : ℕ) where
  -- A press of a button on an entry of the loaded queue.
  module _ (action issue project : String) where
    abbrev pub pressed_on : Approvals
    pressed_on = λ k. told_press action issue project (f k)

    -- What the loop changes is known to be approved, if the press approves.
    abbrev pub IsPressed : Text × Candidate → Type 0
    IsPressed e =
        is_approval action ≡ true
        → is_meant now action issue project e.1 ≡ true
        → (a : Approval) → pressed_on e.0 ≡ some a
        → a.approved ≡ true

    new_status-meant :
        (c : Candidate) (status : MergeStatus)
        → new_status now action issue project c ≡ some status
        → is_meant now action issue project c ≡ true
    unfolding new_status
    new_status-meant c status h = elim (Bool-cases (is_meant now action issue project c)) [
      | inl e ↦ e
      | inr e ↦ ground (arith, e, h)
    ]

    press_one-IsKept :
        (k : Text) (c : Candidate) (status : MergeStatus) (h : Host)
        → IsPressed (k, c)
        → strip k ≡ k
        → is_meant now action issue project c ≡ true
        → IsKept pressed_on h.queue
        → IsKept pressed_on
            (update_merge_candidate now k
              (λ b. set_override (is_approval action) (set_status status [] b))
              h).1.queue
    unfolding store_candidate
    press_one-IsKept k c status h is_pressed key meant kept =
        update_ind now k (λ b. set_override (is_approval action) (set_status status [] b)) h
          (λ x. IsKept pressed_on x.queue) kept
          (λ b found.
            let (url, stripped, a, known, mode, same_issue, same_project, overrides) =
              kept.entries_agree (strip k) b found in
            let known_k : pressed_on k ≡ some a = ap pressed_on (sym key) ∙ known in
            put-IsKept pressed_on pressed_on (strip k)
              (touch now (set_override (is_approval action) (set_status status [] b))) h.queue kept
              (
                url,
                stripped,
                a,
                known,
                mode,
                same_issue,
                same_project,
                λ approval. is_pressed approval meant a known_k,
              )
              (λ j e. refl))

    pub press_each-IsKept :
        (q : Queue) (n : ℕ) (h : Host)
        → All (λ (e : Text × Candidate). (strip e.0 ≡ e.0) × IsPressed e) q
        → IsKept pressed_on h.queue
        → IsKept pressed_on (press_each now action issue project q n h).1.queue
    unfolding press_each
    press_each-IsKept [] n h all_pressed kept = kept
    press_each-IsKept ((k, c) ∷ q) n h ((key, is_pressed), all_pressed) kept =
        elim (Option-cases (new_status now action issue project c)) [
          | inl e ↦ rw (e, press_each) (press_each-IsKept q n h all_pressed kept)
          | inr (status, e) ↦
              let change : Candidate → Candidate =
                λ b. set_override (is_approval action) (set_status status [] b) in
              let next : Host = (update_merge_candidate now k change h).1 in
              let kept' : IsKept pressed_on next.queue =
                press_one-IsKept k c status h is_pressed key (new_status-meant c status e) kept in
              rw (e, press_each)
                (elim (Option-cases (update_merge_candidate now k change h).0) [
                  | inl none_there ↦ rw (none_there) (press_each-IsKept q n next all_pressed kept')
                  | inr (b, there) ↦ rw (there) (press_each-IsKept q (suc n) next all_pressed kept')
                ])
        ]

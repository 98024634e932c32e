-- ===== src/RateLimit/Window.antt =====
-- nexus/core/rate_limiter.py: any interleaving of the requests of all users and actions, and what the
-- limiter lets through of it for one user and action.
use nexus_arc.Base.{
  ℕ, ◌≤◌, ◌≡◌, sym, String, Bool, true, false, ◌&&◌, none, some, List, [], ◌∷◌, ◌++◌, ◌==◌, str_eq,
  if◌then◌else◌, arith, Bool-cases, Option-cases, ap, subst, ◌⊎◌, inl, inr,
}
use nexus_arc.RateLimit.{
  Limit, Limiter, default_limit, drop_old, Answer, allowed, check_limit, cleanup_old_data,
  record_request, check_and_record,
}
use nexus_arc.RateLimit.Times.{
  times, in_window, in_window-le, in_window-append, in_window-drop_old, times-cleanup_old_data,
  times-check_with, check_with_room, times-record_request, same_quota, check_limit_known,
  allowed_step, refused_step, Answer-cases, is_allowed,
}

-- The requests, in their order. A request is checked by the default limit of its action, and recorded
-- if it is let through.
pub record Request : Type 0 where
  pub now : ℕ
  pub user : ℕ
  pub action : String

abbrev pub step : Request → Limiter → Limiter × Answer
step r s = check_and_record r.now r.user r.action none s

-- The history with the request added, if it is one that counts and was let through.
abbrev pub noted : Bool → Bool → ℕ → List ℕ → List ℕ
noted own true now h = if own then now ∷ h else h
noted own false now h = h

-- Each instant of a history, the last one first, ends a window that holds at most `limit` instants.
abbrev pub WithinLimit : ℕ → ℕ → List ℕ → Type 0
WithinLimit window limit [] = Unit
WithinLimit window limit (t ∷ h) = (in_window window t (t ∷ h) ≤ limit) × WithinLimit window limit h

-- The clock does not run backwards.
abbrev pub InOrder : ℕ → List Request → Type 0
InOrder last [] = Unit
InOrder last (r ∷ rs) = (last ≤ r.now) × InOrder r.now rs

module _ (user : ℕ) (action : String) where
  -- The instants at which a request of the user for the action was let through, the last one first.
  unfoldable pub history : List Request → Limiter → List ℕ → List ℕ
  history [] s h = h
  history (r ∷ rs) s h =
      history rs (step r s).0
        (noted ((user == r.user) && str_eq action r.action) (is_allowed (step r s).1) r.now h)

  module _ (limit : Limit) (known : default_limit action ≡ some limit) where
    open limit use {window_seconds as window, max_requests}

    -- What was let through and may still count is remembered.
    abbrev Remembers : ℕ → Limiter → List ℕ → Type 0
    Remembers last s h =
        (n : ℕ) → last ≤ n → in_window window n h ≤ in_window window n (times user action s)

    clean-Remembers :
        (now : ℕ) (s : Limiter) (h : List ℕ)
        → Remembers now s h
        → Remembers now (cleanup_old_data now s) h
    clean-Remembers now s h m n le = omega (
      arith,
      m n le,
      ap (in_window window n) (times-cleanup_old_data now user action limit s known),
      in_window-drop_old window now n (times user action s) le,
    )

    -- A check drops at most what is too old.
    pub check-times :
        (now v : ℕ) (b : String) (s : Limiter)
        → (times user action (check_limit now v b none s).0 ≡ times user action s)
          ⊎ (times user action (check_limit now v b none s).0
              ≡ drop_old now window (times user action s))
    unfolding check_limit
    check-times now v b s = elim (Option-cases (default_limit b)) [
      | inl e ↦ inl (rw (e, check_limit))
      | inr (l, e) ↦
          rw (e, check_limit)
            (elim (Bool-cases ((user == v) && str_eq action b)) [
              | inl m ↦
                  let (p, q) = same_quota user v action b m in
                  let checked = times-check_with now user v action b l s in
                  inr (ground (arith, m, p, q, e, known, checked))
              | inr m ↦ inl (rw (times-check_with now user v action b l s, m))
            ])
    ]

    check-Remembers :
        (last now v : ℕ) (b : String) (s : Limiter) (h : List ℕ)
        → Remembers last s h
        → last ≤ now
        → Remembers now (check_limit now v b none s).0 h
    check-Remembers last now v b s h m le n le' = elim (check-times now v b s) [
      | inl e ↦ rw (e) (m n (omega (arith, le, le')))
      | inr e ↦
          rw (e, in_window-drop_old window now n (times user action s) le')
            (m n (omega (arith, le, le')))
    ]

    grown-in_window :
        (now v n : ℕ) (b : String) (s : Limiter) (h : List ℕ)
        → in_window window n h ≤ in_window window n (times user action s)
        → in_window window n (if (user == v) && str_eq action b then now ∷ h else h)
          ≤ in_window window n (
              if (user == v) && str_eq action b
              then times v b s ++ now ∷ []
              else times user action s)
    grown-in_window now v n b s h le = elim (Bool-cases ((user == v) && str_eq action b)) [
      | inl e ↦
          let (p, q) = same_quota user v action b e in
          let more = in_window-append window n (times user action s) now in
          rw (e, ← p, ← q, more) (ground (arith, le))
      | inr e ↦ rw (e) le
    ]

    record-Remembers :
        (now v : ℕ) (b : String) (s : Limiter) (h : List ℕ)
        → Remembers now s h
        → Remembers now
            (record_request now v b s)
            (if (user == v) && str_eq action b then now ∷ h else h)
    record-Remembers now v b s h m n le =
        let grown = grown-in_window now v n b s h (m n le) in
        elim (times-record_request now user v action b limit s known) [
          | inl e ↦ rw (e) grown
          | inr e ↦
              let ts =
                if (user == v) && str_eq action b
                then times v b s ++ now ∷ []
                else times user action s in
              rw (e, in_window-drop_old window now n ts le) grown
        ]

    step-Remembers :
        (last : ℕ) (r : Request) (s : Limiter) (h : List ℕ)
        → Remembers last s h
        → last ≤ r.now
        → Remembers r.now
            (step r s).0
            (noted ((user == r.user) && str_eq action r.action) (is_allowed (step r s).1) r.now h)
    step-Remembers last r s h m le =
        let checked = check-Remembers last r.now r.user r.action s h m le in
        elim (Answer-cases (check_limit r.now r.user r.action none s).1) [
          | inl e ↦ rw (allowed_step r.now r.user r.action s e) (
              record-Remembers r.now r.user r.action (check_limit r.now r.user r.action none s).0 h
                checked)
          | inr e ↦ rw (refused_step r.now r.user r.action s e) (rw (e) checked)
        ]

    room :
        (now : ℕ) (s : Limiter) (h : List ℕ)
        → (check_limit now user action none s).1 ≡ allowed
        → in_window window now h ≤ in_window window now (times user action s)
        → in_window window now (now ∷ h) ≤ max_requests
    room now s h e le =
        let kept = drop_old now window (times user action s) in
        let dropped = in_window-drop_old window now now (times user action s) (omega arith) in
        let short =
          check_with_room now user action limit s
            (rw (← check_limit_known now user action limit s known) e) in
        let few = in_window-le window now kept in ground (arith, dropped, short, few, le)

    -- A request that is let through finds less than the limit in its window.
    step-WithinLimit :
        (last : ℕ) (r : Request) (s : Limiter) (h : List ℕ)
        → Remembers last s h
        → last ≤ r.now
        → WithinLimit window max_requests h
        → WithinLimit window max_requests
            (noted ((user == r.user) && str_eq action r.action) (is_allowed (step r s).1) r.now h)
    step-WithinLimit last r s h m le ok =
        elim (Answer-cases (check_limit r.now r.user r.action none s).1) [
          | inl e ↦
              rw (allowed_step r.now r.user r.action s e)
                (elim (Bool-cases ((user == r.user) && str_eq action r.action)) [
                  | inl own ↦
                      let (p, q) = same_quota user r.user action r.action own in
                      rw (own) (
                        room r.now s h
                            (subst (λ a. (check_limit r.now user a none s).1 ≡ allowed) (sym q)
                              (rw (p) e))
                            (m r.now le),
                        ok,
                      )
                  | inr other ↦ rw (other) ok
                ])
          | inr e ↦ rw (refused_step r.now r.user r.action s e, e) ok
        ]

    history-WithinLimit_from :
        (rs : List Request) (last : ℕ) (s : Limiter) (h : List ℕ)
        → InOrder last rs
        → Remembers last s h
        → WithinLimit window max_requests h
        → WithinLimit window max_requests (history rs s h)
    unfolding history
    history-WithinLimit_from [] last s h o m ok = ok
    history-WithinLimit_from (r ∷ rs) last s h o m ok =
        history-WithinLimit_from rs r.now (step r s).0
          (noted ((user == r.user) && str_eq action r.action) (is_allowed (step r s).1) r.now h) o.1
          (step-Remembers last r s h m o.0) (step-WithinLimit last r s h m o.0 ok)

-- However the requests of all users for all actions are interleaved, as long as the clock does not run
-- backwards: an action with a default limit, for a user of whom the limiter knows no request for it,
-- is let through at most `max_requests` times in each window of `window_seconds` that ends when it is
-- let through.
pub history-WithinLimit :
    (user : ℕ) (action : String) (limit : Limit) (s : Limiter) (rs : List Request)
    → default_limit action ≡ some limit
    → times user action s ≡ []
    → InOrder 0 rs
    → WithinLimit limit.window_seconds limit.max_requests (history user action rs s [])
history-WithinLimit user action limit s rs known fresh o =
    history-WithinLimit_from user action limit known rs 0 s [] o (λ n _. omega arith) tt

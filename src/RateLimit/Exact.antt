-- ===== src/RateLimit/Exact.antt =====
-- The limiter against a sliding window that only looks at the requests of one user for one action.
use nexus_arc.Base.{
  ℕ, ◌+◌, ◌≤◌, ◌≡◌, refl, sym, ap, ◌∙◌, String, Bool, true, false, ◌&&◌, none, some, List, [], ◌∷◌,
  ◌++◌, All, ltb, leb, ◌==◌, str_eq, if◌then◌else◌, arith, Bool-cases, inl, inr, length, if_ind,
}
use nexus_arc.RateLimit.{
  Limit, Limiter, Answer, default_limit, drop_old, check_with, check_limit, count_recent,
  cleanup_old, quota_for, refusal, record_request,
}
use nexus_arc.RateLimit.Times.{
  times, in_window, in_window-append, in_window-drop_old, times-record_request, is_allowed,
  check_limit_known, allowed_step, refused_step, Answer-cases, same_quota, cleaned-times,
}
use nexus_arc.RateLimit.Window.{Request, noted, InOrder, history, check-times}

noted_other : (x y : Bool) (now : ℕ) (h : List ℕ) → noted false x now h ≡ noted false y now h
noted_other true true now h = refl
noted_other true false now h = refl
noted_other false true now h = refl
noted_other false false now h = refl

-- The times stand in their order.
abbrev Ascends : List ℕ → Type 0
Ascends [] = Unit
Ascends (t ∷ ts) = All (λ u. t ≤ u) ts × Ascends ts

-- From a time in the window on all are in it.
in_window_full :
    (window now t : ℕ) (ts : List ℕ)
    → All (λ u. t ≤ u) ts
    → now ≤ t + window
    → in_window window now ts ≡ length ts
in_window_full window now t [] a h = refl
in_window_full window now t (u ∷ us) a h =
    ground (arith, a.0, h, in_window_full window now t us a.1)

-- In ascending times, what is not dropped is what lies in the window.
length-drop_old :
    (now window : ℕ) (ts : List ℕ)
    → Ascends ts
    → length (drop_old now window ts) ≡ in_window window now ts
unfolding drop_old
length-drop_old now window [] a = refl
length-drop_old now window (t ∷ ts) a =
    ground (arith, length-drop_old now window ts a.1, in_window_full window now t ts a.0)

Ascends-drop_old : (now window : ℕ) (ts : List ℕ) → Ascends ts → Ascends (drop_old now window ts)
unfolding drop_old
Ascends-drop_old now window [] a = tt
Ascends-drop_old now window (t ∷ ts) a =
    if_ind Ascends (ltb (t + window) now) (λ _. Ascends-drop_old now window ts a.1) (λ _. a)

All-drop_old :
    (last now window : ℕ) (ts : List ℕ)
    → All (λ t. t ≤ last) ts
    → All (λ t. t ≤ last) (drop_old now window ts)
unfolding drop_old
All-drop_old last now window [] a = tt
All-drop_old last now window (t ∷ ts) a =
    if_ind (All (λ t. t ≤ last)) (ltb (t + window) now) (λ _. All-drop_old last now window ts a.1)
      (λ _. a)

All-later :
    (last now : ℕ) (ts : List ℕ) → last ≤ now → All (λ t. t ≤ last) ts → All (λ t. t ≤ now) ts
All-later last now [] h a = tt
All-later last now (t ∷ ts) h a = (omega (arith, h, a.0), All-later last now ts h a.1)

All-add : (P : ℕ → Type 0) (ts : List ℕ) (t : ℕ) → All P ts → P t → All P (ts ++ t ∷ [])
All-add P [] t a p = (p, tt)
All-add P (u ∷ us) t a p = (a.0, All-add P us t a.1 p)

Ascends-add :
    (now : ℕ) (ts : List ℕ) → All (λ t. t ≤ now) ts → Ascends ts → Ascends (ts ++ now ∷ [])
Ascends-add now [] b a = (tt, tt)
Ascends-add now (t ∷ ts) b a = (All-add (λ u. t ≤ u) ts now a.0 b.0, Ascends-add now ts b.1 a.1)

-- Kept times that tell of a history all that a window from now on can see.
record Tracks (window last : ℕ) (h ts : List ℕ) : Type 0 where
  ascending : Ascends ts
  past : All (λ t. t ≤ last) ts
  same : (n : ℕ) → last ≤ n → in_window window n h ≡ in_window window n ts

later-Tracks :
    {window last now : ℕ} {h ts : List ℕ}
    → last ≤ now
    → Tracks window last h ts
    → Tracks window now h ts
later-Tracks {window} {last} {now} {h} {ts} le k = record {
  ascending = k.ascending;
  past = All-later last now ts le k.past;
  same = λ n le'. k.same n (omega (arith, le, le'));
}

drop-Tracks :
    {window now : ℕ} {h ts : List ℕ}
    → Tracks window now h ts
    → Tracks window now h (drop_old now window ts)
drop-Tracks {window} {now} {h} {ts} k = record {
  ascending = Ascends-drop_old now window ts k.ascending;
  past = All-drop_old now now window ts k.past;
  same = λ n le. k.same n le ∙ sym (in_window-drop_old window now n ts le);
}

add-Tracks :
    {window now : ℕ} {h ts : List ℕ}
    → Tracks window now h ts
    → Tracks window now (now ∷ h) (ts ++ now ∷ [])
add-Tracks {window} {now} {h} {ts} k = record {
  ascending = Ascends-add now ts k.past k.ascending;
  past = All-add (λ t. t ≤ now) ts now k.past (omega arith);
  same = λ n le. ground (arith, k.same n le, in_window-append window n ts now);
}

is_allowed-refusal :
    (now : ℕ) (limit : Limit) (ts : List ℕ) → is_allowed (refusal now limit ts) ≡ false
unfolding refusal
is_allowed-refusal now limit [] = refl
is_allowed-refusal now limit (t ∷ ts) = refl

is_allowed-check_with :
    (now v : ℕ) (b : String) (limit : Limit) (s : Limiter)
    → is_allowed (check_with now v b limit s).1
      ≡ ltb (length (drop_old now limit.window_seconds (times v b s))) limit.max_requests
unfolding check_with count_recent
is_allowed-check_with now v b limit s =
    let ts = (cleanup_old now limit.window_seconds (quota_for v b s)).timestamps in
    rw (sym (cleaned-times now v b limit s)) (
      if_ind (λ (x : Limiter × Answer). is_allowed x.1 ≡ ltb (length ts) limit.max_requests)
        (leb limit.max_requests (length ts))
        (λ h. is_allowed-refusal now limit ts ∙ ground (arith, h)) (λ h. ground (arith, h)))

module _ (user : ℕ) (action : String) (limit : Limit) where
  -- A sliding window over the requests of the user for the action, that sees no others.
  unfoldable pub window_history : List Request → List ℕ → List ℕ
  window_history [] h = h
  window_history (r ∷ rs) h = window_history rs (
      noted ((user == r.user) && str_eq action r.action)
        (ltb (in_window limit.window_seconds r.now h) limit.max_requests) r.now h)

module _ (user : ℕ) (action : String) (limit : Limit)
    (known : default_limit action ≡ some limit) where
  open limit use {window_seconds as window, max_requests}

  check-Tracks :
      (now v : ℕ) (b : String) (s : Limiter) (h : List ℕ)
      → Tracks window now h (times user action s)
      → Tracks window now h (times user action (check_limit now v b none s).0)
  check-Tracks now v b s h k = elim (check-times user action limit known now v b s) [
    | inl e ↦ rw (e) k
    | inr e ↦ rw (e) (drop-Tracks k)
  ]

  grown-Tracks :
      (now v : ℕ) (b : String) (s : Limiter) (h : List ℕ)
      → Tracks window now h (times user action s)
      → Tracks window now
          (if (user == v) && str_eq action b then now ∷ h else h)
          (if (user == v) && str_eq action b then times v b s ++ now ∷ [] else times user action s)
  grown-Tracks now v b s h k = elim (Bool-cases ((user == v) && str_eq action b)) [
    | inl e ↦ let (p, q) = same_quota user v action b e in rw (e, ← p, ← q) (add-Tracks k)
    | inr e ↦ rw (e) k
  ]

  record-Tracks :
      (now v : ℕ) (b : String) (s : Limiter) (h : List ℕ)
      → Tracks window now h (times user action s)
      → Tracks window now
          (if (user == v) && str_eq action b then now ∷ h else h)
          (times user action (record_request now v b s))
  record-Tracks now v b s h k =
      let grown = grown-Tracks now v b s h k in
      elim (times-record_request now user v action b limit s known) [
        | inl e ↦ rw (e) grown
        | inr e ↦ rw (e) (drop-Tracks grown)
      ]

  -- The check of a request of the user for the action looks at its own history alone.
  is_allowed-check_limit :
      (now : ℕ) (s : Limiter) (h : List ℕ)
      → Tracks window now h (times user action s)
      → is_allowed (check_limit now user action none s).1
        ≡ ltb (in_window window now h) max_requests
  is_allowed-check_limit now s h k = rw (
    check_limit_known now user action limit s known,
    is_allowed-check_with now user action limit s,
    length-drop_old now window (times user action s) k.ascending,
    k.same now (omega arith),
  )

  noted-check_limit :
      (now v : ℕ) (b : String) (s : Limiter) (h : List ℕ)
      → Tracks window now h (times user action s)
      → noted ((user == v) && str_eq action b) (is_allowed (check_limit now v b none s).1) now h
        ≡ noted ((user == v) && str_eq action b) (ltb (in_window window now h) max_requests) now h
  noted-check_limit now v b s h k = elim (Bool-cases ((user == v) && str_eq action b)) [
    | inl e ↦
        let (p, q) = same_quota user v action b e in
        rw (e, ← p, ← q, is_allowed-check_limit now s h k)
    | inr e ↦ rw (e) (noted_other _ _ now h)
  ]

  history-window_history_from :
      (rs : List Request) (last : ℕ) (s : Limiter) (h : List ℕ)
      → InOrder last rs
      → Tracks window last h (times user action s)
      → history user action rs s h ≡ window_history user action limit rs h
  unfolding history window_history
  history-window_history_from [] last s h o k = refl
  history-window_history_from (r ∷ rs) last s h o k =
      let k' = later-Tracks o.0 k in
      let checked = check-Tracks r.now r.user r.action s h k' in
      let decided = noted-check_limit r.now r.user r.action s h k' in
      elim (Answer-cases (check_limit r.now r.user r.action none s).1) [
        | inl e ↦ rw (allowed_step r.now r.user r.action s e) (
            history-window_history_from rs r.now _ _ o.1 (
              record-Tracks r.now r.user r.action (check_limit r.now r.user r.action none s).0 h
                checked)
            ∙ ap (window_history user action limit rs) (rw (e) at decided))
        | inr e ↦
            rw (refused_step r.now r.user r.action s e, e)
              (history-window_history_from rs r.now _ h o.1 checked
                ∙ ap (window_history user action limit rs) (rw (e) at decided))
      ]

-- The limiter is exact: for an action with a default limit and a user of whom it knows no request for
-- it, it lets through exactly what a sliding window lets through that sees only the requests of that
-- user for that action, however these are interleaved with requests of other users and for other
-- actions, as long as the clock does not run backwards.
pub history-window_history :
    (user : ℕ) (action : String) (limit : Limit) (s : Limiter) (rs : List Request)
    → default_limit action ≡ some limit
    → times user action s ≡ []
    → InOrder 0 rs
    → history user action rs s [] ≡ window_history user action limit rs []
history-window_history user action limit s rs known fresh o =
    history-window_history_from user action limit known rs 0 s [] o
      (rw (fresh) (record { ascending = tt; past = tt; same = λ n le. refl }))

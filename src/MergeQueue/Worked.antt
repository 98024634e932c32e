-- ===== src/MergeQueue/Worked.antt =====
-- nexus/core/merge_queue.py: a whole run of the worker, over the entries that were due.
use nexus_arc.Base.{
  ℕ, ◌≡◌, refl, ap, ◌∙◌, inl, inr, Bool, true, false, ◌||◌, some, List, [], ◌∷◌, codes, any,
  is_some, code_eq, strip, arith, Bool-cases, Option-cases, All, All-mono,
}
use nexus_arc.StatePlugin.Refs.{Text, is_blank}
use nexus_arc.MergeQueue.{Candidate, Host, get_candidate}
use nexus_arc.MergeQueue.Urls.{Parsed, raised, unsupported, parsed}
use nexus_arc.MergeQueue.Worker.{Services, parse_for, process_parsed, process_all}
use nexus_arc.MergeQueue.Settled.{closed_entry, is_valid, closed_at, Closes, process_parsed-Closes}

-- The worker's parse of an entry's url.
abbrev pub parse_of : Services → ℕ → Candidate → Parsed
parse_of services now c = parse_for services now (strip (codes c.project)) (strip c.pr_url)

abbrev pub is_under : Text → Candidate → Bool
is_under j c = code_eq (strip c.pr_url) j

-- An entry of the loop is in the queue, under its url, which is valid.
abbrev pub IsReady : Services → ℕ → Host → Candidate → Type 0
IsReady services now h c =
    (is_blank (strip c.pr_url) ≡ false)
    × (is_some (get_candidate (strip c.pr_url) h.queue) ≡ true)
    × (is_valid (parse_of services now c) ≡ true)

module _ (services : Services) (now : ℕ) where
  goes_on :
      (c : Candidate) (p : Parsed) (h : Host) → (process_parsed services now c p h).0 ≡ is_valid p
  unfolding process_parsed
  goes_on c raised h = refl
  goes_on c unsupported h = refl
  goes_on c (parsed repo number) h = refl

  there-Closes :
      (u k : Text) (h x : Host)
      → Closes u h x
      → is_some (get_candidate k h.queue) ≡ true
      → is_some (get_candidate k x.queue) ≡ true
  there-Closes u k h x (d, closed, at) there = elim (Bool-cases (code_eq u k)) [
    | inl e ↦ ap is_some (at k) ∙ rw (e) refl
    | inr e ↦ ap is_some (at k) ∙ rw (e) there
  ]

  closed-Closes :
      (u k : Text) (h x : Host)
      → Closes u h x
      → (closed_at k h || code_eq u k) ≡ true
      → closed_at k x ≡ true
  closed-Closes u k h x (d, closed, at) either = elim (Bool-cases (code_eq u k)) [
    | inl e ↦
        let stored : get_candidate k x.queue ≡ some d = at k ∙ rw (e) refl in
        ap closed_entry stored ∙ closed
    | inr e ↦
        let stays : get_candidate k x.queue ≡ get_candidate k h.queue = at k ∙ rw (e) refl in
        ap closed_entry stays ∙ ground (arith, either, e)
  ]

  IsReady-process_parsed :
      (c : Candidate) (h next : Host)
      → Closes (strip c.pr_url) h next
      → (cs : List Candidate) → All (IsReady services now h) cs
      → All (IsReady services now next) cs
  IsReady-process_parsed c h next closes cs ready =
      All-mono (IsReady services now h) (IsReady services now next) cs
        (λ d (named, there, valid).
          (named, there-Closes (strip c.pr_url) (strip d.pr_url) h next closes there, valid))
        ready

  module _ (j : Text) where
    pub process_all-closed :
        (cs : List Candidate) (h : Host)
        → All (IsReady services now h) cs
        → (closed_at j h || any (is_under j) cs) ≡ true
        → closed_at j (process_all services now cs h) ≡ true
    unfolding process_all
    process_all-closed [] h ready either = ground (arith, either)
    process_all-closed (c ∷ cs) h ((named, there, valid), ready) either =
        elim (Option-cases (get_candidate (strip c.pr_url) h.queue)) [
          | inl missing ↦ absurd (ground (arith, missing, there))
          | inr (b, found) ↦
              let p = parse_of services now c in
              let next = (process_parsed services now c p h).1 in
              let closes = process_parsed-Closes services now c named p h found valid in
              rw (goes_on c p h ∙ valid) (
                process_all-closed cs next (IsReady-process_parsed c h next closes cs ready)
                  (elim (Bool-cases (closed_at j h || is_under j c)) [
                    | inl now_closed ↦
                        let closed = closed-Closes (strip c.pr_url) j h next closes now_closed in
                        rw (closed) refl
                    | inr open_yet ↦ ground (arith, open_yet, either)
                  ]))
        ]

    -- The entries that the loop does not meet stay.
    pub process_all-others :
        (cs : List Candidate) (h : Host)
        → All (IsReady services now h) cs
        → any (is_under j) cs ≡ false
        → get_candidate j (process_all services now cs h).queue ≡ get_candidate j h.queue
    unfolding process_all
    process_all-others [] h ready none_under = refl
    process_all-others (c ∷ cs) h ((named, there, valid), ready) none_under =
        elim (Option-cases (get_candidate (strip c.pr_url) h.queue)) [
          | inl missing ↦ absurd (ground (arith, missing, there))
          | inr (b, found) ↦
              let p = parse_of services now c in
              let next = (process_parsed services now c p h).1 in
              let closes = process_parsed-Closes services now c named p h found valid in
              let (d, closed, at) = closes in
              let other : is_under j c ≡ false = ground (arith, none_under) in
              let rest : any (is_under j) cs ≡ false = ground (arith, none_under) in
              rw (goes_on c p h ∙ valid) (
                process_all-others cs next (IsReady-process_parsed c h next closes cs ready) rest
                ∙ at j
                ∙ rw (other) refl)
        ]

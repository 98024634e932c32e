-- ===== src/MergeQueue/Kept.antt =====
-- nexus/core/state_manager.py: the merge queue as a dictionary, and what an update does to it.
use nexus_arc.Base.{
  ℕ, ◌≡◌, refl, sym, ap, ◌∙◌, inl, inr, Bool, false, none, some, [], ◌∷◌, ◌++◌, if◌then◌else◌,
  code_eq, code_eq_refl, code_eq→eq, drop_while, strip_by, strip, arith, Bool-cases, Option-cases,
  Sum-cases, All, All-mono, List-cases,
}
use mathlib.Core.List.{reverse, reverse-cons, reverse-append, reverse-reverse}
use nexus_arc.StatePlugin.Refs.{Text, is_blank}
use nexus_arc.MergeQueue.{
  Candidate, Queue, Host, get_candidate, put_candidate, store_candidate, touch,
  update_merge_candidate,
}
use nexus_arc.MergeQueue.Worker.{
  Services, note_call, issue_token, merge_refused, merge_done, merge_with,
}

pub get_candidate-put_candidate :
    (k j : Text) (c : Candidate) (q : Queue)
    → get_candidate j (put_candidate k c q) ≡ (if code_eq k j then some c else get_candidate j q)
unfolding get_candidate put_candidate
get_candidate-put_candidate k j c [] = refl
get_candidate-put_candidate k j c ((i, b) ∷ q) = ground (
  arith,
  get_candidate-put_candidate k j c q,
  code_eq→eq i k,
  code_eq→eq i j,
  code_eq→eq k j,
  code_eq_refl k,
  code_eq_refl j,
)

-- No key stands twice.
abbrev pub IsUnique : Queue → Type 0
IsUnique [] = Unit
IsUnique ((j, c) ∷ q) = (get_candidate j q ≡ none) × IsUnique q

pub put_candidate-IsUnique :
    (k : Text) (c : Candidate) (q : Queue) → IsUnique q → IsUnique (put_candidate k c q)
unfolding put_candidate get_candidate
put_candidate-IsUnique k c [] u = (refl, tt)
put_candidate-IsUnique k c ((j, b) ∷ q) u = elim (Bool-cases (code_eq j k)) [
  | inl e ↦ rw (e) u
  | inr e ↦ rw (e) (
    get_candidate-put_candidate k j c q ∙ ground (arith, e, u.0, code_eq→eq k j, code_eq_refl k),
    put_candidate-IsUnique k c q u.1,
  )
]

-- Every entry is the one that its key finds.
pub entries-found :
    (q : Queue) → IsUnique q → All (λ (e : Text × Candidate). get_candidate e.0 q ≡ some e.1) q
unfolding get_candidate
entries-found [] u = tt
entries-found ((j, c) ∷ q) u = (
  rw (code_eq_refl j) refl,
  All-mono (λ (e : Text × Candidate). get_candidate e.0 q ≡ some e.1)
      (λ (e : Text × Candidate). get_candidate e.0 ((j, c) ∷ q) ≡ some e.1) q
      (λ e found. ground (arith, found, u.0, code_eq→eq j e.0)) (entries-found q u.1),
)

module _ (now : ℕ) (pr_url : Text) (change : Candidate → Candidate) (h : Host) where
  -- An update leaves the host as it is, or stores the changed entry under its key.
  pub update_ind {ℓ} :
      (P : Host → Type ℓ)
      → P h
      → ((c : Candidate)
          → get_candidate (strip pr_url) h.queue ≡ some c
          → P (store_candidate (strip pr_url) (touch now (change c)) h))
      → P (update_merge_candidate now pr_url change h).1
  unfolding update_merge_candidate
  update_ind P same stored = elim (Bool-cases (is_blank (strip pr_url))) [
    | inl e ↦ rw e same
    | inr e ↦ elim (Option-cases (get_candidate (strip pr_url) h.queue)) [
      | inl f ↦ rw (e) (rw f same)
      | inr (c, f) ↦ rw (e) (rw f (stored c f))
    ]
  ]

-- An attempt to merge is refused before or by the call of the platform, or it is done.
pub merge_with_ind {ℓ} :
    (services : Services) (now : ℕ) (u issue command project repo number : Text) (h : Host)
    (P : Host → Type ℓ)
    → ((e : Text) → P (merge_refused services now u issue command e h))
    → ((e : Text) → P (merge_refused services now u issue command e (note_call u h)))
    → ((output : Text) → P (merge_done services now u issue command output (note_call u h)))
    → P (merge_with services now u issue command project repo number h)
unfolding merge_with
merge_with_ind services now u issue command project repo number h P early refused done =
    elim (Sum-cases (issue_token services now project repo issue)) [
      | inl (e, found) ↦ rw (found, merge_with) (early e)
      | inr (token, found) ↦
          rw (found, merge_with)
            (elim (Sum-cases (services.merge_pull_request now repo number token)) [
              | inl (e, answer) ↦ rw (answer) (refused e)
              | inr (output, answer) ↦ rw (answer) (done output)
            ])
    ]

-- `strip` twice is `strip`.
module _ (p : ℕ → Bool) where
  drop_while_idem : (t : Text) → drop_while p (drop_while p t) ≡ drop_while p t
  drop_while_idem [] = refl
  drop_while_idem (c ∷ cs) = elim (Bool-cases (p c)) [
    | inl e ↦ rw (e) (drop_while_idem cs)
    | inr e ↦ rw (e) (rw (e) refl)
  ]

  drop_while-snoc :
      (t : Text) (c : ℕ) → p c ≡ false → drop_while p (t ++ c ∷ []) ≡ drop_while p t ++ c ∷ []
  drop_while-snoc [] c h = rw (h) refl
  drop_while-snoc (d ∷ ds) c h = elim (Bool-cases (p d)) [
    | inl e ↦ rw (e) (drop_while-snoc ds c h)
    | inr e ↦ rw (e) refl
  ]

  drop_while-head : (t : Text) (c : ℕ) (cs : Text) → drop_while p t ≡ c ∷ cs → p c ≡ false
  drop_while-head [] c cs h = cc
  drop_while-head (d ∷ ds) c cs h = elim (Bool-cases (p d)) [
    | inl e ↦ drop_while-head ds c cs (ground (arith, e, h))
    | inr e ↦ ground (arith, e, h)
  ]

  -- What is left of a text whose first character is kept.
  strip_by-kept :
      (c : ℕ) (cs : Text)
      → p c ≡ false
      → reverse (drop_while p (reverse (c ∷ cs))) ≡ c ∷ reverse (drop_while p (reverse cs))
  strip_by-kept c cs h =
      ap (λ t. reverse (drop_while p t)) (reverse-cons c cs)
      ∙ ap reverse (drop_while-snoc (reverse cs) c h)
      ∙ reverse-append (drop_while p (reverse cs)) (c ∷ [])

  pub strip_by_idem : (t : Text) → strip_by p (strip_by p t) ≡ strip_by p t
  strip_by_idem t = elim (List-cases (drop_while p t)) [
    | inl e ↦ rw (e) refl
    | inr (c, cs, e) ↦
        let first : p c ≡ false = drop_while-head t c cs e in
        let z : Text = drop_while p (reverse cs) in
        let once : strip_by p t ≡ c ∷ reverse z =
          ap (λ u. reverse (drop_while p (reverse u))) e ∙ strip_by-kept c cs first in
        let stays : drop_while p (c ∷ reverse z) ≡ c ∷ reverse z = rw (first) refl in
        ap (strip_by p) once
        ∙ ap (λ u. reverse (drop_while p (reverse u))) stays
        ∙ strip_by-kept c (reverse z) first
        ∙ ap (λ u. c ∷ reverse (drop_while p u)) (reverse-reverse z)
        ∙ ap (λ u. c ∷ reverse u) (drop_while_idem (reverse cs))
        ∙ sym once
  ]

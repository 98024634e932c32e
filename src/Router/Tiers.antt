-- ===== src/Router/Tiers.antt =====
-- nexus/core/router.py: the suggested label against the detected tier.
use nexus_arc.Base.{ℕ, ◌≡◌, refl, none, some, List, [], ◌∷◌, ◌++◌, arith, Option-cases, inl, inr}
use nexus_arc.Router.{
  Tier, full, shortened, fast_track, workflow_label, explicit_tier, first_explicit,
  detect_tier_from_labels, suggest_tier_from_content, suggest_tier_label,
}

explicit_tier-workflow_label : (t : Tier) → explicit_tier (workflow_label t) ≡ some t
unfolding explicit_tier
explicit_tier-workflow_label full = refl
explicit_tier-workflow_label shortened = refl
explicit_tier-workflow_label fast_track = refl

first_explicit-append :
    (before after : List (List ℕ)) (t : Tier)
    → first_explicit before ≡ none
    → first_explicit (before ++ workflow_label t ∷ after) ≡ some t
unfolding first_explicit
first_explicit-append [] after t h = rw (explicit_tier-workflow_label t, first_explicit)
first_explicit-append (l ∷ ls) after t h = elim (Option-cases (explicit_tier l)) [
  | inl e ↦ ground (arith, e, h, first_explicit-append ls after t)
  | inr (u, e) ↦ ground (arith, e, h)
]

-- The tier that is suggested for a text is detected again from the suggested label, wherever it
-- stands among the labels of the issue, unless another label before it names a tier.
pub detect_tier-suggest_tier_label :
    (title body label : List ℕ) (before after : List (List ℕ))
    → suggest_tier_label title body ≡ some label
    → first_explicit before ≡ none
    → suggest_tier_from_content title body
      ≡ some (detect_tier_from_labels (before ++ label ∷ after))
unfolding suggest_tier_label detect_tier_from_labels
detect_tier-suggest_tier_label title body label before after e h =
    elim (Option-cases (suggest_tier_from_content title body)) [
      | inl f ↦ ground (arith, e, f)
      | inr (t, f) ↦
          let is_label : workflow_label t ≡ label = ground (arith, e, f) in
          let found : first_explicit (before ++ label ∷ after) ≡ some t =
            rw (← is_label) (first_explicit-append before after t h) in
          rw (f, found, detect_tier_from_labels)
    ]

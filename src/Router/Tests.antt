-- ===== src/Router/Tests.antt =====
-- Issues and their tiers, and the theorem at one of them.
use nexus_arc.Base.{◌≡◌, refl, some, [], ◌∷◌, codes}
use nexus_arc.Router.{
  full, shortened, fast_track, explicit_tier, first_explicit, mentions, detect_tier_from_labels,
  suggest_tier_from_content, suggest_tier_label,
}
use nexus_arc.Router.Tiers.{detect_tier-suggest_tier_label}

program : Unit {0}
unfolding explicit_tier first_explicit mentions detect_tier_from_labels suggest_tier_from_content
    suggest_tier_label
program = tt

detected :
    (detect_tier_from_labels (codes "docs" ∷ codes "BugReport" ∷ []) ≡ shortened)
    × (detect_tier_from_labels (codes "priority:URGENT" ∷ codes "bug" ∷ []) ≡ fast_track)
    × (detect_tier_from_labels (codes "urgent" ∷ codes "workflow:full" ∷ []) ≡ full)
unfolding program
detected = (refl, refl, refl)

detect_tier-suggest_tier_label_example :
    suggest_tier_from_content (codes "Crash") (codes "Please FIX")
    ≡ some (detect_tier_from_labels (codes "urgent" ∷ codes "workflow:shortened" ∷ []))
unfolding program
detect_tier-suggest_tier_label_example =
    detect_tier-suggest_tier_label (codes "Crash") (codes "Please FIX") (codes "workflow:shortened")
      (codes "urgent" ∷ []) [] refl refl

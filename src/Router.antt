-- ===== src/Router.antt =====
-- nexus/core/router.py: the tier of a workflow, from the labels of an issue or from its text. A text
-- is the list of its character codes; `lower` is that of ASCII letters.
pub mod Tiers
pub mod Tests
use nexus_arc.Base.{
  ℕ, Bool, true, false, ◌||◌, Option, none, some, List, [], ◌∷◌, ◌++◌, map, any, codes, code_eq,
  contains, lower, if◌then◌else◌,
}

-- The names of the tiers: "full", "shortened" and "fast-track".
pub data Tier : Type 0 where
  full shortened fast_track : Tier

abbrev pub tier_name : Tier → List ℕ
tier_name full = codes "full"
tier_name shortened = codes "shortened"
tier_name fast_track = codes "fast-track"

abbrev pub workflow_label : Tier → List ℕ
workflow_label t = codes "workflow:" ++ tier_name t

-- A round of the loop over the labels.
unfoldable pub explicit_tier : List ℕ → Option Tier
explicit_tier label =
    if code_eq label (codes "workflow:full")
    then some full
    else (if code_eq label (codes "workflow:shortened")
        then some shortened
        else (if code_eq label (codes "workflow:fast-track") then some fast_track else none))

unfoldable pub first_explicit : List (List ℕ) → Option Tier
first_explicit [] = none
first_explicit (l ∷ ls) =
    let later = first_explicit ls in elim (explicit_tier l) [ none ↦ later | some t ↦ some t ]

-- `any(w in l for l in labels_lower for w in words)`
unfoldable pub mentions : List (List ℕ) → List (List ℕ) → Bool
mentions words labels = any (λ l. any (λ w. contains w l) words) labels

unfoldable pub detect_tier_from_labels : List (List ℕ) → Tier
detect_tier_from_labels labels = elim (first_explicit labels) [
  | some t ↦ t
  | none ↦
      let labels_lower = map lower labels in
      if mentions (codes "critical" ∷ codes "hotfix" ∷ codes "urgent" ∷ []) labels_lower
      then fast_track
      else (if mentions (codes "bug" ∷ codes "fix" ∷ []) labels_lower then shortened else full)
]

unfoldable pub suggest_tier_from_content : List ℕ → List ℕ → Option Tier
suggest_tier_from_content title body =
    let content = lower (title ++ b' ' ∷ body) in
    let has = λ (words : List (List ℕ)). any (λ w. contains w content) words in
    if has (codes "critical" ∷ codes "urgent" ∷ codes "hotfix" ∷ codes "asap" ∷ [])
    then some fast_track
    else (if has (codes "bug" ∷ codes "fix" ∷ codes "problem" ∷ [])
        then some shortened
        else (if has (
              codes "feature"
              ∷ codes "add"
              ∷ codes "enhancement"
              ∷ codes "improvement"
              ∷ codes "new"
              ∷ [])
            then some full
            else none))

-- `f"workflow:{tier}" if tier else None`
unfoldable pub suggest_tier_label : List ℕ → List ℕ → Option (List ℕ)
suggest_tier_label title body = elim (suggest_tier_from_content title body) [
  | none ↦ none
  | some t ↦ some (workflow_label t)
]

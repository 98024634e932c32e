-- ===== src/PromptBudget/Tests.antt =====
-- Texts and their budgets, and the theorems at them.
use nexus_arc.Base.{◌⊎◌, ◌≤◌, ◌≡◌, refl, true, false, ◌∷◌, ◌++◌, codes, length, ltb}
use nexus_arc.PromptBudget.{
  Text, take, truncate_text, default_suffix, split_lines, non_empty, lines_of, squeeze, normalize,
  strip_right, bullet, collect, join_lines, summary_of, summarize_text, apply_prompt_budget,
}
use nexus_arc.PromptBudget.Bounds.{apply_prompt_budget_lem}

program : Unit {0}
unfolding take truncate_text split_lines non_empty lines_of squeeze normalize strip_right bullet
    collect join_lines summary_of summarize_text apply_prompt_budget
program = tt

abbrev note : Text
note =
    codes "  - one   two"
    ++ 10 ∷ codes "ONE TWO"
    ++ 10 ∷ 10 ∷ codes "three"
    ++ 10 ∷ codes "the last line of the note"

summarize_text-note :
    summarize_text note 1200 2 ≡ codes "Summary:" ++ 10 ∷ codes "- one two" ++ 10 ∷ codes "- three"
unfolding program
summarize_text-note = refl

truncate_text-note : truncate_text note 20 default_suffix ≡ codes "  - one" ++ default_suffix
unfolding program
truncate_text-note = refl

apply_prompt_budget_lem_example :
    let b = apply_prompt_budget note 30 1200 in
    (length b.text ≤ 30)
    × (b.final_chars ≡ length b.text)
    × (b.original_chars ≡ length note)
    × (b.summarized ≡ ltb 30 (length note))
    × (b.truncated ≡ ltb (length b.text) (length note))
    × ((b.summarized ≡ false) × (b.text ≡ note) ⊎ (b.summarized ≡ true) × (length b.text ≤ 1200))
apply_prompt_budget_lem_example = apply_prompt_budget_lem note 30 1200

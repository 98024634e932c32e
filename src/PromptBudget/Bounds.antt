-- ===== src/PromptBudget/Bounds.antt =====
-- nexus/core/prompt_budget.py: the lengths of the texts that are returned.
use nexus_arc.Base.{
  min, ltb, ◌⊎◌, true, false, ℕ, zero, suc, ◌-◌, ◌≤◌, ◌≡◌, refl, true, false, List, [], ◌∷◌, length,
  arith, ltb, length-append, strip, if_ind, code_eq,
}
use nexus_arc.PromptBudget.{
  Text, take, summary_of, truncate_text, default_suffix, summarize_text, apply_prompt_budget,
  lines_of, collect,
}

length-take : (n : ℕ) (t : Text) → n ≤ length t → length (take n t) ≡ n
unfolding take
length-take zero t h = refl
length-take (suc n) [] h = absurd (omega arith)
length-take (suc n) (c ∷ cs) h = ground (arith, length-take n cs)

-- A text that is cut is exactly as long as the limit, whatever the suffix; a shorter text keeps its
-- length.
pub length-truncate_text :
    (value : Text) (limit : ℕ) (suffix : Text)
    → length (truncate_text value limit suffix) ≡ min (length value) limit
unfolding truncate_text
length-truncate_text value limit suffix =
    let whole = length-take limit value in
    let part = length-take (limit - length suffix) value in
    let joined = length-append (take (limit - length suffix) value) suffix in
    ground (arith, whole, part, joined)

truncate_text-le :
    (value : Text) (limit : ℕ) (suffix : Text) → length (truncate_text value limit suffix) ≤ limit
truncate_text-le value limit suffix = rw (length-truncate_text value limit suffix) (omega arith)

summary_of-le :
    (value : Text) (max_chars : ℕ) (bullets : List Text)
    → length (summary_of value max_chars bullets) ≤ max_chars
unfolding summary_of
summary_of-le value max_chars [] = truncate_text-le value max_chars default_suffix
summary_of-le value max_chars (b ∷ bs) = truncate_text-le _ max_chars default_suffix

pub summarize_text-le :
    (text : Text) (max_chars max_items : ℕ)
    → length (summarize_text text max_chars max_items) ≤ max_chars
unfolding summarize_text
summarize_text-le text max_chars max_items =
    let value = strip text in
    if_ind (λ (t : Text). length t ≤ max_chars) (code_eq value []) (λ _. omega arith)
      (λ _. summary_of-le value max_chars (collect max_items [] (lines_of value)))

-- The text that is returned fits the budget, the numbers and flags tell of it, and it is the text
-- itself, or else a summary that also fits the budget for summaries.
pub apply_prompt_budget_lem :
    (value : Text) (max_chars summary_max_chars : ℕ)
    → let b = apply_prompt_budget value max_chars summary_max_chars in
      (length b.text ≤ max_chars)
      × (b.final_chars ≡ length b.text)
      × (b.original_chars ≡ length value)
      × (b.summarized ≡ ltb max_chars (length value))
      × (b.truncated ≡ ltb (length b.text) (length value))
      × ((b.summarized ≡ false) × (b.text ≡ value)
          ⊎ (b.summarized ≡ true) × (length b.text ≤ summary_max_chars))
unfolding apply_prompt_budget
apply_prompt_budget_lem value max_chars summary_max_chars =
    let summary = summarize_text value summary_max_chars 10 in
    let short = summarize_text-le value summary_max_chars 10 in
    let cut = length-truncate_text summary max_chars default_suffix in ground (arith, short, cut)

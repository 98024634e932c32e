-- ===== src/PromptBudget.antt =====
-- nexus/core/prompt_budget.py: texts cut to a budget of characters. A text is the list of its character
-- codes; `strip` and the split at white space are those of ASCII text. Budgets are not negative.
pub mod Bounds
pub mod Tests
use nexus_arc.Base.{
  ℕ, zero, suc, ◌+◌, ◌-◌, Bool, true, false, not, ◌&&◌, ◌||◌, ◌==◌, List, [], ◌∷◌, ◌++◌, length,
  any, map, codes, code_eq, lower, strip, strip_by, is_space, drop_while, ltb, leb, if◌then◌else◌,
}
use mathlib.Core.List.{reverse}

abbrev pub Text : Type 0
Text = List ℕ

-- `value[:n]`
unfoldable pub take : ℕ → Text → Text
take zero t = []
take (suc n) [] = []
take (suc n) (c ∷ cs) = c ∷ take n cs

-- `suffix`, two newlines and "[truncated]".
abbrev pub default_suffix : Text
default_suffix = 10 ∷ 10 ∷ codes "[truncated]"

unfoldable pub truncate_text : Text → ℕ → Text → Text
truncate_text value limit suffix =
    if leb (length value) limit
    then value
    else (if leb limit (length suffix)
        then take limit value
        else take (limit - length suffix) value ++ suffix)

-- The lines of a text: the pieces between newlines, each without white space at its ends, and without
-- the empty ones. (`re.split(r"\r?\n+", …)` gives the same pieces: what differs between it and a split
-- at each newline are empty pieces and a carriage return at the end of a piece.)
unfoldable pub split_lines : Text → Text → List Text
split_lines piece [] = reverse piece ∷ []
split_lines piece (c ∷ cs) =
    let same = split_lines (c ∷ piece) cs in
    let new = split_lines [] cs in if c == 10 then reverse piece ∷ new else same

unfoldable pub non_empty : List Text → List Text
non_empty [] = []
non_empty ([] ∷ ls) = non_empty ls
non_empty ((c ∷ cs) ∷ ls) = (c ∷ cs) ∷ non_empty ls

unfoldable pub lines_of : Text → List Text
lines_of value = non_empty (map strip (split_lines [] value))

-- `re.sub(r"\s+", " ", line)`: the flag says that the character before was white space.
unfoldable pub squeeze : Bool → Text → Text
squeeze in_space [] = []
squeeze in_space (c ∷ cs) =
    let rest = squeeze (is_space c) cs in
    if is_space c then (if in_space then rest else 32 ∷ rest) else c ∷ rest

-- `.strip(" -\t")`
unfoldable pub normalize : Text → Text
normalize line = strip_by (λ c. (c == 32) || (c == 45) || (c == 9)) (squeeze false line)

abbrev mem_code : Text → List Text → Bool
mem_code t = any (code_eq t)

-- `.rstrip()`
unfoldable pub strip_right : Text → Text
strip_right t = reverse (drop_while is_space (reverse t))

unfoldable pub bullet : Text → Text
bullet t = 45 ∷ 32 ∷ (if ltb 220 (length t) then strip_right (take 217 t) ++ codes "..." else t)

-- The loop over the lines, with the number of bullets that may still be added. With a limit of 0 the
-- first bullet is still added, and with it the loop ends.
unfoldable pub collect : ℕ → List Text → List Text → List Text
collect room seen [] = []
collect room seen (line ∷ ls) =
    let t = normalize line in
    let seen' = lower t ∷ seen in
    let skipped = collect room seen ls in
    let next = collect (room - 1) seen' ls in
    if code_eq t [] || mem_code (lower t) seen
    then skipped
    else (if leb room 1 then bullet t ∷ [] else bullet t ∷ next)

-- `"\n".join(bullets)`
unfoldable pub join_lines : List Text → Text
join_lines [] = []
join_lines (l ∷ []) = l
join_lines (l ∷ m ∷ ls) = l ++ 10 ∷ join_lines (m ∷ ls)

-- The summary of the bullets; with no bullets (also where there are no lines) the text itself is cut.
unfoldable pub summary_of : Text → ℕ → List Text → Text
summary_of value max_chars [] = truncate_text value max_chars default_suffix
summary_of value max_chars (b ∷ bs) =
    truncate_text (codes "Summary:" ++ 10 ∷ join_lines (b ∷ bs)) max_chars default_suffix

unfoldable pub summarize_text : Text → ℕ → ℕ → Text
summarize_text text max_chars max_items =
    let value = strip text in
    if code_eq value []
    then []
    else summary_of value max_chars (collect max_items [] (lines_of value))

-- The dictionary that `apply_prompt_budget` returns.
pub record Budgeted : Type 0 where
  pub text : Text
  pub original_chars : ℕ
  pub final_chars : ℕ
  pub summarized : Bool
  pub truncated : Bool

unfoldable pub apply_prompt_budget : Text → ℕ → ℕ → Budgeted
apply_prompt_budget value max_chars summary_max_chars =
    let original = length value in
    let summary = summarize_text value summary_max_chars 10 in
    let cut = truncate_text summary max_chars default_suffix in
    if leb original max_chars
    then record {
      text = value;
      original_chars = original;
      final_chars = original;
      summarized = false;
      truncated = false;
    }
    else (if leb (length summary) max_chars
        then record {
          text = summary;
          original_chars = original;
          final_chars = length summary;
          summarized = true;
          truncated = ltb (length summary) original;
        }
        else record {
          text = cut;
          original_chars = original;
          final_chars = length cut;
          summarized = true;
          truncated = true;
        })

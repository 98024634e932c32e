-- ===== src/Engine/Written.antt =====
-- What a load gives of a workflow that was saved: the steps with their execution.
use nexus_arc.Base.{ℕ, ◌≤◌, ◌≡◌, ◌∙◌, ap, sym, some, All-map, map, get_elem?-map}
use nexus_arc.Engine.Model.{Step, Workflow, step_at, is_complete}
use nexus_arc.Engine.Serde.{step_to_dict, dict_to_step, written_step, written}
use nexus_arc.Engine.Invariant.{Inv}

pub step_at-written :
    (w : Workflow) (i : ℕ) {s : Step}
    → step_at (written w) i ≡ some s
    → (t : Step) × (step_at w i ≡ some t) × (s ≡ written_step t)
step_at-written w i there =
    let (d, at_d, p) = get_elem?-map dict_to_step (map step_to_dict w.steps) i there in
    let (t, at_t, q) = get_elem?-map step_to_dict w.steps i at_d in (t, at_t, p ∙ ap dict_to_step q)

-- The invariant is about what is written.
pub written-Inv : {limit : ℕ} (w : Workflow) → Inv limit w → Inv limit (written w)
unfolding is_complete
written-Inv {limit} w inv = record {
  bounded =
      All-map (λ s. s.iteration ≤ limit) dict_to_step (map step_to_dict w.steps)
        (All-map (λ d. d.iteration ≤ limit) step_to_dict w.steps inv.bounded);
  timed = inv.timed;
  alone = λ i j s t at_i at_j r r'.
      let (x, at_x, p) = step_at-written w i at_i in
      let (y, at_y, q) = step_at-written w j at_j in
      inv.alone i j x y at_x at_y (sym (ap (λ z. z.status) p) ∙ r)
        (sym (ap (λ z. z.status) q) ∙ r');
  current = λ i s at_i r.
      let (x, at_x, p) = step_at-written w i at_i in
      ap (λ z. z.step_num) p ∙ inv.current i x at_x (sym (ap (λ z. z.status) p) ∙ r);
  idle = λ waits i s at_i r.
      let (x, at_x, p) = step_at-written w i at_i in
      inv.idle waits i x at_x (sym (ap (λ z. z.status) p) ∙ r);
}

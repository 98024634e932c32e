-- ===== src/StatePlugin/Numbered.antt =====
-- Workflows in which no two steps have the same number.
use nexus_arc.Base.{
  ℕ, zero, suc, ◌+◌, ◌≡◌, refl, sym, ◌∙◌, ap, inl, inr, some, List, [], ◌∷◌, map, get_elem?,
  get_elem?-map, arith, String, if_ind, Bool-cases,
}
use nexus_arc.Engine.Serde.{written}
use nexus_arc.Engine.Written.{step_at-written}
use nexus_arc.Engine.Model.{Step, Workflow, step_at, get_step}
use nexus_arc.Engine.Gates.{
  Policy, apply_approval_gates, human_gate_step, merge_gate_step, add_gate,
}
use nexus_arc.Engine.Measure.{get_step-num}
use nexus_arc.Engine.Kept.{definition, definitions}

abbrev pub IsNumbered : Workflow → Type 0
IsNumbered w =
    (i j : ℕ) (s t : Step)
    → step_at w i ≡ some s
    → step_at w j ≡ some t
    → s.step_num ≡ t.step_num
    → i ≡ j

map-get_elem? {ℓ κ} :
    {A : Type ℓ} {B : Type κ} (f : A → B) (xs : List A) (i : ℕ) {x : A}
    → get_elem? xs i ≡ some x
    → get_elem? (map f xs) i ≡ some (f x)
map-get_elem? f [] i h = absurd (ground arith)
map-get_elem? f (x ∷ xs) zero h = ground (arith, h)
map-get_elem? f (x ∷ xs) (suc i) h = map-get_elem? f xs i h

-- A step has its like in a workflow with the same definitions.
pub step_at-definitions :
    (v w : Workflow) (i : ℕ) {s : Step}
    → definitions w ≡ definitions v
    → step_at w i ≡ some s
    → (t : Step) × (step_at v i ≡ some t) × (definition s ≡ definition t)
step_at-definitions v w i {s} same there =
    let mapped : get_elem? (definitions w) i ≡ some (definition s) =
      map-get_elem? definition w.steps i there in
    get_elem?-map definition v.steps i (rw same at mapped)

pub definitions-IsNumbered :
    (v w : Workflow) → definitions w ≡ definitions v → IsNumbered v → IsNumbered w
definitions-IsNumbered v w same numbered i j s t a b e =
    let (s', a', p) = step_at-definitions v w i same a in
    let (t', b', q) = step_at-definitions v w j same b in
    numbered i j s' t' a' b' (sym (ap (λ x. x.step_num) p) ∙ e ∙ ap (λ x. x.step_num) q)

pub written-IsNumbered : (w : Workflow) → IsNumbered w → IsNumbered (written w)
written-IsNumbered w numbered i j s t a b e =
    let (s', a', p) = step_at-written w i a in
    let (t', b', q) = step_at-written w j b in
    numbered i j s' t' a' b' (sym (ap (λ x. x.step_num) p) ∙ e ∙ ap (λ x. x.step_num) q)

-- A step but for its gates.
abbrev pub ungated : Step → Step
ungated s = record s { approval_gates = [] }

ungated_gates :
    (policy : Policy) (names : List String) (s : Step)
    → (ungated (human_gate_step policy names s) ≡ ungated s)
      × (ungated (merge_gate_step policy s) ≡ ungated s)
unfolding human_gate_step merge_gate_step add_gate
ungated_gates policy names s = (
  if_ind (λ x. ungated x ≡ ungated s) _ (λ _. refl) (λ _. refl),
  if_ind (λ x. ungated x ≡ ungated s) _ (λ _. refl) (λ _. refl),
)

-- The gates leave a step as it is otherwise.
pub step_at-gates :
    (policy : Policy) (v : Workflow) (i : ℕ) {s : Step}
    → step_at (apply_approval_gates policy v) i ≡ some s
    → (t : Step) × (step_at v i ≡ some t) × (ungated s ≡ ungated t)
unfolding apply_approval_gates
step_at-gates policy v i {s} there =
    let (m, at_m, human) =
      get_elem?-map (human_gate_step policy v.require_approval_for) _ i there in
    let gated = ap ungated human ∙ (ungated_gates policy v.require_approval_for m).0 in
    elim (Bool-cases v.require_human_merge_approval) [
      | inr off ↦ (m, rw off at at_m, gated)
      | inl on ↦
          let (t, at_t, merged) =
            get_elem?-map (merge_gate_step policy) v.steps i (rw on at at_m) in
          (t, at_t, gated ∙ ap ungated merged ∙ (ungated_gates policy [] t).1)
    ]

-- The first step with the number of a step is that step.
pub get_step-IsNumbered :
    (v : Workflow) (i j : ℕ) {s t : Step}
    → IsNumbered v
    → step_at v i ≡ some s
    → get_step v s.step_num ≡ some j
    → step_at v j ≡ some t
    → t ≡ s
get_step-IsNumbered v i j {s} {t} numbered there found at_j =
    let (x, at_x, num) = get_step-num v s.step_num found in
    let same : i ≡ j = numbered i j s x there at_x (sym num) in ground (arith, same, there, at_j)

pub gates-IsNumbered :
    (policy : Policy) (v : Workflow) → IsNumbered v → IsNumbered (apply_approval_gates policy v)
gates-IsNumbered policy v numbered i j s t a b e =
    let (s', a', p) = step_at-gates policy v i a in
    let (t', b', q) = step_at-gates policy v j b in
    numbered i j s' t' a' b' (sym (ap (λ x. x.step_num) p) ∙ e ∙ ap (λ x. x.step_num) q)

-- The steps are numbered upwards from a number.
abbrev pub InOrder : ℕ → List Step → Type 0
InOrder n [] = Unit {0}
InOrder n (s ∷ ss) = (s.step_num ≡ n) × InOrder (suc n) ss

step_num-InOrder :
    (n : ℕ) (ss : List Step) (i : ℕ) {s : Step}
    → InOrder n ss
    → get_elem? ss i ≡ some s
    → s.step_num ≡ n + i
step_num-InOrder n [] i a there = absurd (ground (arith, there))
step_num-InOrder n (t ∷ ss) zero a there = ground (arith, there)
step_num-InOrder n (t ∷ ss) (suc i) a there = omega (arith, step_num-InOrder (suc n) ss i a.1 there)

pub InOrder-IsNumbered : (n : ℕ) (w : Workflow) → InOrder n w.steps → IsNumbered w
InOrder-IsNumbered n w a i j s t at_i at_j e =
    omega (arith, step_num-InOrder n w.steps i a at_i, step_num-InOrder n w.steps j a at_j)

-- ===== src/Engine/Measure.antt =====
-- A number for the loop of `advance_after_success`, made of the re-activations that are left and the
-- distance to the end of the numbering of the steps.
use nexus_arc.Base.{
  ℕ, zero, suc, ◌+◌, ◌-◌, ◌*◌, ◌≤◌, ◌<◌, ◌≡◌, refl, Option, none, some, List, [], ◌∷◌, arith,
  get_elem?, modify_at, find_index-some, inl, inr, Option-cases, ==_iff,
}
use nexus_arc.Engine.Model.{Step, Workflow, step_at, get_step, get_next_step}
use nexus_arc.Engine.Advance.{
  reset_step, at_limit, change_step, reset_step_for_goto, activations_left, max_step_num,
  advance_fuel,
}

pub max_step_num-modify_at :
    (ss : List Step) (i : ℕ) (f : Step → Step)
    → ((s : Step) → (f s).step_num ≡ s.step_num)
    → max_step_num (modify_at ss i f) ≡ max_step_num ss
unfolding max_step_num
max_step_num-modify_at [] i f h = refl
max_step_num-modify_at (s ∷ ss) zero f h = omega (arith, h s)
max_step_num-modify_at (s ∷ ss) (suc i) f h = omega (arith, max_step_num-modify_at ss i f h)

step_num-le-max :
    (ss : List Step) (i : ℕ) {s : Step} → get_elem? ss i ≡ some s → s.step_num ≤ max_step_num ss
unfolding max_step_num
step_num-le-max [] i h = cc
step_num-le-max (t ∷ ss) zero h = ground arith
step_num-le-max (t ∷ ss) (suc i) h = omega (arith, step_num-le-max ss i h)

pub activations_left-modify_at :
    (limit : ℕ) (ss : List Step) (i : ℕ) (f : Step → Step)
    → ((s : Step) → (f s).iteration ≡ s.iteration)
    → activations_left limit (modify_at ss i f) ≡ activations_left limit ss
unfolding activations_left
activations_left-modify_at limit [] i f h = refl
activations_left-modify_at limit (s ∷ ss) zero f h = omega (arith, h s)
activations_left-modify_at limit (s ∷ ss) (suc i) f h =
    omega (arith, activations_left-modify_at limit ss i f h)

-- A reset uses up one of the re-activations that are left.
pub activations_left-reset :
    (limit : ℕ) (ss : List Step) (i : ℕ) {s : Step}
    → get_elem? ss i ≡ some s
    → s.iteration < limit
    → activations_left limit (modify_at ss i reset_step) + 1 ≡ activations_left limit ss
unfolding activations_left reset_step
activations_left-reset limit [] i h lt = cc
activations_left-reset limit (t ∷ ss) zero h lt = ground arith
activations_left-reset limit (t ∷ ss) (suc i) h lt =
    omega (arith, activations_left-reset limit ss i h lt)

-- How far a step is from the end of the numbering.
distance : ℕ → Option Step → ℕ
distance m none = 1
distance m (some s) = suc m - s.step_num

pub measure : ℕ → Workflow → Option ℕ → ℕ
measure limit w none = activations_left limit w.steps * (max_step_num w.steps + 2)
measure limit w (some i) =
    activations_left limit w.steps * (max_step_num w.steps + 2)
    + distance (max_step_num w.steps) (step_at w i)

distance-le : (m : ℕ) (o : Option Step) → distance m o ≤ suc m
unfolding distance
distance-le m none = omega arith
distance-le m (some s) = omega arith

fewer : (l' l m d e : ℕ) → l' + 1 ≡ l → e ≤ suc m → l' * (m + 2) + e < l * (m + 2) + d
fewer l' l m d e h k = rw (← h) (omega arith)

pub get_step-num :
    (w : Workflow) (num : ℕ) {i : ℕ}
    → get_step w num ≡ some i
    → (s : Step) × (step_at w i ≡ some s) × (s.step_num ≡ num)
unfolding get_step
get_step-num w num h =
    let (s, there, e) = find_index-some _ w.steps h in (s, there, (==_iff s.step_num num).0 e)

-- What a successful reset did.
pub reset_step_for_goto-some :
    (limit i : ℕ) (w : Workflow) {w' : Workflow}
    → reset_step_for_goto limit i w ≡ some w'
    → (s : Step) × (step_at w i ≡ some s)
      × (s.iteration < limit)
      × (w' ≡ change_step i reset_step w)
unfolding reset_step_for_goto at_limit
reset_step_for_goto-some limit i w h = elim (Option-cases (step_at w i)) [
  | inl e ↦ absurd (ground arith)
  | inr (s, e) ↦ (s, e, ground arith, ground arith)
]

-- Going on to the step with the next number comes nearer to the end of the numbering.
pub measure-next :
    (limit : ℕ) (w w' : Workflow) (i : ℕ) {s : Step}
    → step_at w i ≡ some s
    → activations_left limit w'.steps ≡ activations_left limit w.steps
    → max_step_num w'.steps ≡ max_step_num w.steps
    → w'.current_step ≡ s.step_num
    → measure limit w' (get_next_step w') < measure limit w (some i)
unfolding measure get_next_step distance
measure-next limit w w' i {s} there l m c =
    elim (Option-cases (get_step w' (w'.current_step + 1))) [
      | inl e ↦ rw (e, there, l, m) (omega (arith, step_num-le-max w.steps i there))
      | inr (j, e) ↦
          let (t, found, num) = get_step-num w' (w'.current_step + 1) e in
          rw (e, there, found, l, m)
            (omega (arith, step_num-le-max w.steps i there, step_num-le-max w'.steps j found, num))
    ]

-- A re-activation uses up one of those that are left, whatever step comes next.
pub measure-reset :
    (limit : ℕ) (w w' : Workflow) (i j : ℕ)
    → activations_left limit w'.steps + 1 ≡ activations_left limit w.steps
    → max_step_num w'.steps ≡ max_step_num w.steps
    → measure limit w' (some j) < measure limit w (some i)
unfolding measure
measure-reset limit w w' i j l m =
    rw m (fewer _ _ _ _ _ l (distance-le (max_step_num w.steps) (step_at w' j)))

pub measure-gone :
    (limit : ℕ) (w : Workflow) (i : ℕ)
    → step_at w i ≡ none
    → measure limit w none < measure limit w (some i)
unfolding measure distance
measure-gone limit w i e = rw e (omega arith)

pub measure-fuel :
    (limit : ℕ) (w : Workflow) (next : Option ℕ) → measure limit w next < advance_fuel limit w
unfolding measure advance_fuel
measure-fuel limit w none = omega arith
measure-fuel limit w (some i) = omega (arith, distance-le (max_step_num w.steps) (step_at w i))

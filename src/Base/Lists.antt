-- ===== src/Base/Lists.antt =====
-- Lists measured and indexed by native numbers, under the library's names.
use Prim.Native.Nat.{ℕ, zero, suc, ◌+◌}
use mathlib.Core.Path.{◌≡◌, refl, ap, subst}
use mathlib.Core.Logic.{◌≢◌, ◌⊎◌, inl, inr}
use mathlib.Core.Bool.{Bool, true, false, ◌&&◌, ◌||◌}
use mathlib.Core.List.{List, [], ◌∷◌, ◌++◌, map, Memᴰ}
use mathlib.Core.Option.{Option, none, some}
use native.Mathlib.Omega.{arith}
use nexus_arc.Base.Tests.{if◌then◌else◌, Bool-cases, Option-cases}

module _ {ℓ} {A : Type ℓ} where
  abbrev pub length : List A → ℕ
  length [] = 0
  length (x ∷ xs) = suc (length xs)

  abbrev pub get_elem? : List A → ℕ → Option A
  get_elem? [] i = none
  get_elem? (x ∷ xs) zero = some x
  get_elem? (x ∷ xs) (suc i) = get_elem? xs i

  -- A write out of bounds changes nothing.
  abbrev pub set : List A → ℕ → A → List A
  set [] i v = []
  set (x ∷ xs) zero v = v ∷ xs
  set (x ∷ xs) (suc i) v = x ∷ set xs i v

  -- Changes the element at an index in place, as a method call on an object of the list does.
  abbrev pub modify_at : List A → ℕ → (A → A) → List A
  modify_at [] i f = []
  modify_at (x ∷ xs) zero f = f x ∷ xs
  modify_at (x ∷ xs) (suc i) f = x ∷ modify_at xs i f

  -- The index of the first element that passes the test.
  abbrev pub find_index : (A → Bool) → List A → Option ℕ
  find_index p [] = none
  find_index p (x ∷ xs) =
      if p x then some 0 else (elim (find_index p xs) [ none ↦ none | some i ↦ some (suc i) ])

  abbrev pub any : (A → Bool) → List A → Bool
  any p [] = false
  any p (x ∷ xs) = p x || any p xs

  abbrev pub all : (A → Bool) → List A → Bool
  all p [] = true
  all p (x ∷ xs) = p x && all p xs

  abbrev pub keep : (A → Bool) → List A → List A
  keep p [] = []
  keep p (x ∷ xs) = let rest = keep p xs in if p x then x ∷ rest else rest

  abbrev pub count_if : (A → Bool) → List A → ℕ
  count_if p [] = 0
  count_if p (x ∷ xs) = let rest = count_if p xs in if p x then suc rest else rest

  -- A predicate of every element, by recursion, so that the tactics read its parts.
  abbrev pub All {κ} : (A → Type κ) → List A → Type κ
  All P [] = Unit
  All P (x ∷ xs) = P x × All P xs

  pub length-append : (xs ys : List A) → length (xs ++ ys) ≡ length xs + length ys
  length-append [] ys = omega arith
  length-append (x ∷ xs) ys = omega (arith, length-append xs ys)

module _ {ℓ} {A : Type ℓ} where
  pub length-modify_at : (xs : List A) (i : ℕ) (f : A → A) → length (modify_at xs i f) ≡ length xs
  length-modify_at [] i f = refl
  length-modify_at (x ∷ xs) zero f = refl
  length-modify_at (x ∷ xs) (suc i) f = ap suc (length-modify_at xs i f)

  pub get_elem?-modify_at_self :
      (xs : List A) (i : ℕ) (f : A → A) {x : A}
      → get_elem? xs i ≡ some x
      → get_elem? (modify_at xs i f) i ≡ some (f x)
  get_elem?-modify_at_self [] i f h = cc
  get_elem?-modify_at_self (y ∷ xs) zero f h = cc
  get_elem?-modify_at_self (y ∷ xs) (suc i) f h = get_elem?-modify_at_self xs i f h

  pub get_elem?-modify_at_ne :
      (xs : List A) (i j : ℕ) (f : A → A) → i ≢ j → get_elem? (modify_at xs i f) j ≡ get_elem? xs j
  get_elem?-modify_at_ne [] i j f h = refl
  get_elem?-modify_at_ne (x ∷ xs) zero zero f h = absurd (h refl)
  get_elem?-modify_at_ne (x ∷ xs) zero (suc j) f h = refl
  get_elem?-modify_at_ne (x ∷ xs) (suc i) zero f h = refl
  get_elem?-modify_at_ne (x ∷ xs) (suc i) (suc j) f h =
      get_elem?-modify_at_ne xs i j f (λ e. h (ap suc e))

  pub map-modify_at {κ} :
      {B : Type κ} (g : A → B) (xs : List A) (i : ℕ) (f : A → A)
      → ((x : A) → g (f x) ≡ g x)
      → map g (modify_at xs i f) ≡ map g xs
  map-modify_at g [] i f h = refl
  map-modify_at g (x ∷ xs) zero f h = ap (λ b. b ∷ map g xs) (h x)
  map-modify_at g (x ∷ xs) (suc i) f h = ap (◌∷◌ (g x)) (map-modify_at g xs i f h)

  pub All-modify_at {κ} :
      (P : A → Type κ) (xs : List A) (i : ℕ) (f : A → A)
      → ((x : A) → P x → P (f x))
      → All P xs
      → All P (modify_at xs i f)
  All-modify_at P [] i f h a = a
  All-modify_at P (x ∷ xs) zero f h a = (h x a.0, a.1)
  All-modify_at P (x ∷ xs) (suc i) f h a = (a.0, All-modify_at P xs i f h a.1)

  pub All-get_elem? {κ} :
      (P : A → Type κ) (xs : List A) (i : ℕ) {x : A} → All P xs → get_elem? xs i ≡ some x → P x
  All-get_elem? P [] i a h = cc
  All-get_elem? P (y ∷ xs) zero a h = subst P (cc) a.0
  All-get_elem? P (y ∷ xs) (suc i) a h = All-get_elem? P xs i a.1 h

module _ {ℓ} {A : Type ℓ} where
  -- What a search finds is there, and passes the test.
  pub find_index-some :
      (p : A → Bool) (xs : List A) {i : ℕ}
      → find_index p xs ≡ some i
      → (x : A) × (get_elem? xs i ≡ some x) × (p x ≡ true)
  find_index-some p [] h = cc
  find_index-some p (x ∷ xs) {i} h = elim (Bool-cases (p x)) [
    | inl yes_x ↦ (x, ground arith, yes_x)
    | inr no_x ↦ elim (Option-cases (find_index p xs)) [
      | inl e ↦ absurd (ground arith)
      | inr (j, e) ↦ let (y, there, passes) = find_index-some p xs e in (y, ground (arith), passes)
    ]
  ]

pub List-cases {ℓ} :
    {A : Type ℓ} (xs : List A) → (xs ≡ []) ⊎ ((x : A) × (ys : List A) × (xs ≡ x ∷ ys))
List-cases [] = inl refl
List-cases (x ∷ xs) = inr (x, xs, refl)

module _ {ℓ} {A : Type ℓ} where
  -- An element of a list changed at one index is the changed one, or an old one elsewhere.
  pub modify_at-cases :
      (xs : List A) (i j : ℕ) (f : A → A) {y : A}
      → get_elem? (modify_at xs i f) j ≡ some y
      → ((j ≡ i) × ((x : A) × (get_elem? xs i ≡ some x) × (y ≡ f x)))
        ⊎ ((j ≢ i) × (get_elem? xs j ≡ some y))
  modify_at-cases [] i j f h = absurd (ground arith)
  modify_at-cases (x ∷ xs) zero zero f h = inl (refl, (x, refl, ground arith))
  modify_at-cases (x ∷ xs) zero (suc j) f h = inr (omega arith, h)
  modify_at-cases (x ∷ xs) (suc i) zero f h = inr (omega arith, h)
  modify_at-cases (x ∷ xs) (suc i) (suc j) f h = elim (modify_at-cases xs i j f h) [
    | inl (e, found) ↦ inl (ap suc e, found)
    | inr (n, found) ↦ inr (omega arith, found)
  ]

  pub All-modify_at_one {κ} :
      (P : A → Type κ) (xs : List A) (i : ℕ) (f : A → A)
      → ((x : A) → get_elem? xs i ≡ some x → P (f x))
      → All P xs
      → All P (modify_at xs i f)
  All-modify_at_one P [] i f h a = a
  All-modify_at_one P (x ∷ xs) zero f h a = (h x refl, a.1)
  All-modify_at_one P (x ∷ xs) (suc i) f h a = (a.0, All-modify_at_one P xs i f h a.1)

module _ {ℓ κ} {A : Type ℓ} {B : Type κ} where
  pub All-map {μ} :
      (P : B → Type μ) (f : A → B) (xs : List A) → All (λ x. P (f x)) xs → All P (map f xs)
  All-map P f [] a = a
  All-map P f (x ∷ xs) a = (a.0, All-map P f xs a.1)

  -- An element of a mapped list is the image of the element at that index.
  pub get_elem?-map :
      (f : A → B) (xs : List A) (i : ℕ) {y : B}
      → get_elem? (map f xs) i ≡ some y
      → (x : A) × (get_elem? xs i ≡ some x) × (y ≡ f x)
  get_elem?-map f [] i h = absurd (ground arith)
  get_elem?-map f (x ∷ xs) zero h = (x, refl, ground arith)
  get_elem?-map f (x ∷ xs) (suc i) h = get_elem?-map f xs i h

pub All-mono {ℓ κ μ} :
    {A : Type ℓ} (P : A → Type κ) (Q : A → Type μ) (xs : List A)
    → ((x : A) → P x → Q x)
    → All P xs
    → All Q xs
All-mono P Q [] h a = tt
All-mono P Q (x ∷ xs) h a = (h x a.0, All-mono P Q xs h a.1)

pub All-of {ℓ κ} : {A : Type ℓ} (P : A → Type κ) (xs : List A) → ((x : A) → P x) → All P xs
All-of P [] h = tt
All-of P (x ∷ xs) h = (h x, All-of P xs h)

-- Where a test holds, there is an element for which it does.
pub any-Mem {ℓ} :
    {A : Type ℓ} (p : A → Bool) (xs : List A) → any p xs ≡ true → (x : A) × Memᴰ x xs × (p x ≡ true)
any-Mem p [] h = absurd (cc h)
any-Mem p (x ∷ xs) h = elim (Bool-cases (p x)) [
  | inl this ↦ (x, Memᴰ.head refl, this)
  | inr other ↦
      let (y, there, e) = any-Mem p xs (ground (arith, h, other)) in (y, Memᴰ.tail there, e)
]

pub Mem-any {ℓ} :
    {A : Type ℓ} (p : A → Bool) {x : A} (xs : List A) → Memᴰ x xs → p x ≡ true → any p xs ≡ true
Mem-any p [] m e = elim m [ ]
Mem-any p (y ∷ xs) (Memᴰ.head same) e =
    let this : p y ≡ true = subst (λ z. p z ≡ true) same e in ground (arith, this)
Mem-any p (y ∷ xs) (Memᴰ.tail m) e = ground (arith, Mem-any p xs m e)

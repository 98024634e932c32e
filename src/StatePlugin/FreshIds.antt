-- ===== src/StatePlugin/FreshIds.antt =====
-- `_resolve_workflow_id_for_creation`: the search for an id that no workflow has.
use Prim.Native.Char.{Char, code}
use mathlib.Core.List.{append_assoc}
use nexus_arc.Base.{
  ℕ, zero, suc, ◌+◌, ◌-◌, ◌/◌, ◌%◌, ◌≤◌, ◌<◌, ◌≡◌, ◌≢◌, refl, sym, ap, ◌∙◌, inl, inr, String, true,
  false, not, ◌==◌, Option, none, some, List, [], ◌∷◌, ◌++◌, map, keep, length, is_empty, codes,
  decimal, decimal_from, get_elem?, is_some, str_eq, ne→str_eq, mem_text, arith, Option-cases,
  if_ind, eq_iff,
}
use nexus_arc.Engine.Model.{Workflow}
use nexus_arc.Engine.World.{Store, load}
use nexus_arc.IdempotencyLedger.Keys.{decimal_injective}
use nexus_arc.Loader.Fields.{text_of, chars, printable}
use nexus_arc.StatePlugin.Creation.{
  CreationRequest, candidate, fresh_from, base_id, resolve_workflow_id_for_creation,
}

abbrev shown : Option Char → List ℕ
shown none = []
shown (some a) = code a ∷ []

-- The characters of a text stand for the codes one by one.
codes-text_of_cons :
    (c : ℕ) (cs : List ℕ)
    → codes (text_of (c ∷ cs)) ≡ shown (get_elem? (chars printable) (c - 32)) ++ codes (text_of cs)
unfolding text_of
codes-text_of_cons c cs = elim (Option-cases (get_elem? (chars printable) (c - 32))) [
  | inl e ↦ rw (e, text_of)
  | inr (a, e) ↦ rw (e, text_of)
]

codes-text_of_append :
    (t u : List ℕ) → codes (text_of (t ++ u)) ≡ codes (text_of t) ++ codes (text_of u)
codes-text_of_append [] u = unfold text_of in refl
codes-text_of_append (c ∷ cs) u =
    codes-text_of_cons c (cs ++ u)
    ∙ ap (λ x. shown (get_elem? (chars printable) (c - 32)) ++ x) (codes-text_of_append cs u)
    ∙ sym (append_assoc (shown (get_elem? (chars printable) (c - 32))) _ _)
    ∙ ap (λ x. x ++ codes (text_of u)) (sym (codes-text_of_cons c cs))

codes-text_of_digit : (d : ℕ) → d < 10 → codes (text_of ((48 + d) ∷ [])) ≡ (48 + d) ∷ []
unfolding text_of
codes-text_of_digit zero h = refl
codes-text_of_digit (suc zero) h = refl
codes-text_of_digit (suc (suc zero)) h = refl
codes-text_of_digit (suc (suc (suc zero))) h = refl
codes-text_of_digit (suc (suc (suc (suc zero)))) h = refl
codes-text_of_digit (suc (suc (suc (suc (suc zero))))) h = refl
codes-text_of_digit (suc (suc (suc (suc (suc (suc zero)))))) h = refl
codes-text_of_digit (suc (suc (suc (suc (suc (suc (suc zero))))))) h = refl
codes-text_of_digit (suc (suc (suc (suc (suc (suc (suc (suc zero)))))))) h = refl
codes-text_of_digit (suc (suc (suc (suc (suc (suc (suc (suc (suc zero))))))))) h = refl
codes-text_of_digit (suc (suc (suc (suc (suc (suc (suc (suc (suc (suc d)))))))))) h =
    absurd (omega arith)

codes-text_of-decimal_from :
    (fuel n : ℕ) (acc : List ℕ)
    → codes (text_of acc) ≡ acc
    → codes (text_of (decimal_from fuel n acc)) ≡ decimal_from fuel n acc
unfolding decimal_from
codes-text_of-decimal_from zero n acc h = h
codes-text_of-decimal_from (suc fuel) n acc h =
    if_ind (λ (t : List ℕ). codes (text_of t) ≡ t) (n / 10 == 0) (λ _. longer)
      (λ _. codes-text_of-decimal_from fuel (n / 10) ((48 + n % 10) ∷ acc) longer)
  where
    longer : codes (text_of ((48 + n % 10) ∷ acc)) ≡ (48 + n % 10) ∷ acc
    longer =
        codes-text_of_append ((48 + n % 10) ∷ []) acc
        ∙ ap (λ x. x ++ codes (text_of acc)) (codes-text_of_digit (n % 10) (omega arith))
        ∙ ap (◌∷◌ (48 + n % 10)) h

append_cancel {ℓ} : {A : Type ℓ} (xs ys zs : List A) → xs ++ ys ≡ xs ++ zs → ys ≡ zs
append_cancel [] ys zs e = e
append_cancel (x ∷ xs) ys zs e = append_cancel xs ys zs (cc e)

-- Two candidates of one base differ, as their indices do.
candidate_injective : (base : String) (m n : ℕ) → candidate base m ≡ candidate base n → m ≡ n
unfolding candidate
candidate_injective base m n e = decimal_injective m n (
    sym (shown_decimal m)
    ∙ append_cancel (codes (text_of (codes "-r"))) _ _
        (append_cancel (codes (text_of (codes base))) _ _ (sym (parts m) ∙ ap codes e ∙ parts n))
    ∙ shown_decimal n)
  where
    shown_decimal : (k : ℕ) → codes (text_of (decimal k)) ≡ decimal k
    shown_decimal k =
        unfold decimal in codes-text_of-decimal_from (suc k) k [] (unfold text_of in refl)

    parts :
        (k : ℕ)
        → codes (text_of (codes base ++ (codes "-r" ++ decimal k)))
          ≡ codes (text_of (codes base))
            ++ (codes (text_of (codes "-r")) ++ codes (text_of (decimal k)))
    parts k =
        codes-text_of_append (codes base) _
        ∙ ap (λ x. codes (text_of (codes base)) ++ x)
            (codes-text_of_append (codes "-r") (decimal k))

is_empty-codes : (s : String) (xs ys : List ℕ) (c : ℕ) → codes s ≡ xs ++ c ∷ ys → is_empty s ≡ false
is_empty-codes String.[] [] ys c e = absurd (cc e)
is_empty-codes String.[] (x ∷ xs) ys c e = absurd (cc e)
is_empty-codes (String.◌∷◌ a s) xs ys c e = refl

candidate_named : (base : String) (n : ℕ) → is_empty (candidate base n) ≡ false
unfolding candidate
candidate_named base n =
    is_empty-codes (text_of (codes base ++ (codes "-r" ++ decimal n)))
      (codes (text_of (codes base))) (codes (text_of (b'r' ∷ decimal n))) b'-'
      (codes-text_of_append (codes base) (codes "-r" ++ decimal n)
        ∙ ap (λ x. codes (text_of (codes base)) ++ x) (codes-text_of_cons b'-' (b'r' ∷ decimal n)))

abbrev without : String → List String → List String
without a = keep (λ x. not (str_eq a x))

length-without_le : (a : String) (ks : List String) → length (without a ks) ≤ length ks
length-without_le a [] = omega arith
length-without_le a (k ∷ ks) = ground (arith, length-without_le a ks)

length-without :
    (a : String) (ks : List String) → mem_text a ks ≡ true → length (without a ks) < length ks
unfolding mem_text
length-without a [] h = absurd (ground (arith, h))
length-without a (k ∷ ks) h = ground (arith, h, length-without_le a ks, length-without a ks)

mem_text-without :
    (a b : String) (ks : List String) → a ≢ b → mem_text b (without a ks) ≡ mem_text b ks
unfolding mem_text
mem_text-without a b [] ne = refl
mem_text-without a b (k ∷ ks) ne =
    ground (arith, mem_text-without a b ks ne, eq_iff a k, eq_iff b k, ne→str_eq a b ne)

load-mem_text :
    (k : String) (store : Store)
    → is_some (load k store) ≡ true
    → mem_text k (map (λ (e : String × Workflow). e.0) store) ≡ true
unfolding load mem_text
load-mem_text k [] h = absurd (ground (arith, h))
load-mem_text k ((j, w) ∷ store) h =
    ground (arith, h, eq_iff j k, eq_iff k j, load-mem_text k store)

-- A search that may find more ids taken than `ks` has does not find all candidates taken.
fresh_from_total :
    (fuel : ℕ) (base : String) (store : Store) (n : ℕ) (ks : List String)
    → ((m : ℕ)
        → n ≤ m
        → is_some (load (candidate base m) store) ≡ true
        → mem_text (candidate base m) ks ≡ true)
    → length ks < fuel
    → (id : String) × (fresh_from fuel base store n ≡ some id)
      × (load id store ≡ none)
      × (is_empty id ≡ false)
unfolding fresh_from
fresh_from_total zero base store n ks known h = absurd (omega arith)
fresh_from_total (suc fuel) base store n ks known h =
    elim (Option-cases (load (candidate base n) store)) [
      | inl free ↦ (candidate base n, rw (free, fresh_from), free, candidate_named base n)
      | inr (w, taken) ↦
          let in_ks = known n (omega arith) (rw taken) in
          let (id, e, free, named) =
            fresh_from_total fuel base store (n + 1) (without (candidate base n) ks)
              (λ m le t.
                mem_text-without (candidate base n) (candidate base m) ks
                  (λ same. absurd (omega (arith, candidate_injective base n m same)))
                ∙ known m (omega arith) t)
              (omega (arith, length-without (candidate base n) ks in_ks)) in
          (id, rw (taken, fresh_from) e, free, named)
    ]

length-map {ℓ κ} :
    {A : Type ℓ} {B : Type κ} (f : A → B) (xs : List A) → length (map f xs) ≡ length xs
length-map f [] = refl
length-map f (x ∷ xs) = ap suc (length-map f xs)

-- The search for the id of a forced new instance ends by itself, whatever ids are taken: the fuel is enough;
-- and the id that it finds is not empty and
-- names no stored workflow.
pub resolve_workflow_id_for_creation_total :
    (request : CreationRequest) (store : Store)
    → request.force_new_instance ≡ true
    → (id : String) × (resolve_workflow_id_for_creation request store ≡ some id)
      × (load id store ≡ none)
      × (is_empty id ≡ false)
unfolding resolve_workflow_id_for_creation
resolve_workflow_id_for_creation_total request store forced =
    let base = base_id request.project_name request.issue_number request.tier_name in
    rw forced (
      fresh_from_total (suc (length store)) base store 1
        (map (λ (e : String × Workflow). e.0) store)
        (λ m le t. load-mem_text (candidate base m) store t)
        (omega (arith, length-map (λ (e : String × Workflow). e.0) store)))

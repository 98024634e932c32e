-- ===== src/IdempotencyLedger/Keys.antt =====
-- `IdempotencyKey.as_string` of nexus/core/idempotency.py: the texts of the keys.
use nexus_arc.Base.{
  ℕ, zero, suc, ◌+◌, ◌-◌, ◌*◌, ◌/◌, ◌%◌, ◌<◌, ◌≡◌, refl, sym, ap, ◌∙◌, Bool, true, not, [], ◌∷◌,
  ◌++◌, all, arith, ◌==◌, decimal, decimal_from, Bool-cases, inl, inr, ==_iff,
}
use nexus_arc.IdempotencyLedger.{Text, IdempotencyKey, raw_key}

abbrev pub no_colon : Text → Bool
no_colon = all (λ c. not (c == b':'))

-- The number that digits stand for, after those before it.
value : Text → ℕ → ℕ
value [] n = n
value (c ∷ cs) n = value cs (n * 10 + (c - 48))

value-decimal_from :
    (fuel n : ℕ) (acc : Text) → n < fuel → value (decimal_from fuel n acc) 0 ≡ value acc n
unfolding value decimal_from
value-decimal_from zero n acc h = absurd (omega arith)
value-decimal_from (suc fuel) n acc h = elim (Bool-cases (n / 10 == 0)) [
  | inl e ↦
      let small : n / 10 ≡ 0 = (==_iff (n / 10) 0).0 e in
      let is_n : 0 * 10 + ((48 + n % 10) - 48) ≡ n = omega (arith, small) in
      rw (e, decimal_from) (ap (value acc) is_n)
  | inr e ↦
      let is_n : n / 10 * 10 + ((48 + n % 10) - 48) ≡ n = omega arith in
      let less : n / 10 < fuel = ground (arith, e, h) in
      rw (e, decimal_from)
        (value-decimal_from fuel (n / 10) ((48 + n % 10) ∷ acc) less ∙ ap (value acc) is_n)
]

pub decimal_injective : (m n : ℕ) → decimal m ≡ decimal n → m ≡ n
unfolding decimal value
decimal_injective m n e =
    sym (value-decimal_from (suc m) m [] (omega arith))
    ∙ ap (λ t. value t 0) e
    ∙ value-decimal_from (suc n) n [] (omega arith)

no_colon-decimal_from :
    (fuel n : ℕ) (acc : Text) → no_colon acc ≡ true → no_colon (decimal_from fuel n acc) ≡ true
unfolding decimal_from
no_colon-decimal_from zero n acc h = h
no_colon-decimal_from (suc fuel) n acc h =
    ground (arith, h, no_colon-decimal_from fuel (n / 10) ((48 + n % 10) ∷ acc))

no_colon-decimal : (n : ℕ) → no_colon (decimal n) ≡ true
unfolding decimal
no_colon-decimal n = no_colon-decimal_from (suc n) n [] refl

-- A text is split at its first colon in one way.
split_unique :
    (a b x y : Text)
    → no_colon a ≡ true
    → no_colon b ≡ true
    → (a ++ b':' ∷ x) ≡ (b ++ b':' ∷ y)
    → (a ≡ b) × (x ≡ y)
split_unique [] [] x y h k e = ground (arith, e)
split_unique [] (d ∷ ds) x y h k e = ground (arith, e, h, k)
split_unique (c ∷ cs) [] x y h k e = ground (arith, e, h, k)
split_unique (c ∷ cs) (d ∷ ds) x y h k e = ground (arith, e, h, k, split_unique cs ds x y)

-- Two keys with the same text are the same, if no issue id and no agent type has a colon. (An event
-- id may have one.)
pub raw_key_injective :
    (k l : IdempotencyKey)
    → no_colon k.issue_id ≡ true
    → no_colon l.issue_id ≡ true
    → no_colon k.agent_type ≡ true
    → no_colon l.agent_type ≡ true
    → raw_key k ≡ raw_key l
    → k ≡ l
unfolding raw_key
raw_key_injective k l ki li ka la e =
    let (issue, rest) = split_unique k.issue_id l.issue_id _ _ ki li e in
    let (digits, rest') =
      split_unique (decimal k.step_num) (decimal l.step_num) _ _ (no_colon-decimal k.step_num)
        (no_colon-decimal l.step_num) rest in
    let (agent, event) = split_unique k.agent_type l.agent_type _ _ ka la rest' in
    let num = decimal_injective k.step_num l.step_num digits in
    λ i. record { issue_id = issue i; step_num = num i; agent_type = agent i; event_id = event i }

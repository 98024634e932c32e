-- ===== src/IdempotencyLedger/Tests.antt =====
-- A run of the ledger, and the theorems at it.
use nexus_arc.Base.{
  arith, ℕ, ◌%◌, ◌≡◌, refl, ◌↔◌, ◌⊎◌, Bool, true, false, List, [], ◌∷◌, map, codes, decimal, length,
  ◌==◌, if◌then◌else◌, if_ind,
}
use nexus_arc.IdempotencyLedger.{
  Text, IdempotencyKey, raw_key, LedgerFile, items, to_set, is_blank, load_legacy_file_seen,
  text_le, insert, sorted, open_ledger, save, as_string, is_duplicate, record_key,
}
use nexus_arc.IdempotencyLedger.Keys.{raw_key_injective}
use nexus_arc.IdempotencyLedger.Seen.{
  record_all, Occurs, IsTold, is_duplicate_iff, is_duplicate-open_ledger, is_duplicate-record_key,
}

-- A digest for small tests: whether the length is even.
abbrev toy : Text → Text
toy t = if (length t % 2) == 0 then codes "a0" else codes "b1"

toy_solid : (t : Text) → is_blank (toy t) ≡ false
toy_solid t = if_ind (λ d. is_blank d ≡ false) ((length t % 2) == 0) (λ _. refl) (λ _. refl)

abbrev key : ℕ → IdempotencyKey
key num = record {
  issue_id = codes "42";
  step_num = num;
  agent_type = codes "developer";
  event_id = codes "comment:7";
}

program : Unit {0}
unfolding decimal raw_key to_set load_legacy_file_seen text_le insert sorted open_ledger save
    as_string is_duplicate record_key record_all
program = tt

raw_key-test : raw_key (key 3) ≡ codes "42:3:developer:comment:7"
unfolding program
raw_key-test = refl

raw_key_injective_example : key 3 ≡ key 3
raw_key_injective_example = raw_key_injective (key 3) (key 3) refl refl refl refl refl

abbrev events : List (Bool × IdempotencyKey)
events = (false, key 3) ∷ []

abbrev old_file : LedgerFile
old_file = items (codes "c2" ∷ codes " " ∷ [])

file_after :
    (record_all toy ((true, key 3) ∷ (true, key 12) ∷ []) (open_ledger old_file)).file
    ≡ items (codes "a0" ∷ codes "b1" ∷ codes "c2" ∷ [])
unfolding program
file_after = refl

-- The keys of steps 3 and 12 differ in the length of their texts.
events-IsTold : IsTold toy (key 12) events
unfolding program
events-IsTold = ((refl, refl), λ e. absurd (ground (arith, e)), tt)

is_duplicate_iff_example :
    (is_duplicate toy (key 12) (record_all toy events (open_ledger old_file)) ≡ true)
    ↔ (Occurs toy (key 12) events ⊎ (is_duplicate toy (key 12) (open_ledger old_file) ≡ true))
is_duplicate_iff_example = is_duplicate_iff toy (key 12) events old_file (refl, refl) events-IsTold

is_duplicate-open_ledger_example :
    let l = record_all toy (map (λ x. (true, x)) (key 3 ∷ key 12 ∷ [])) (open_ledger old_file) in
    is_duplicate toy (key 3) (open_ledger l.file) ≡ is_duplicate toy (key 3) l
is_duplicate-open_ledger_example =
    is_duplicate-open_ledger toy toy_solid (key 3) old_file (key 3 ∷ key 12 ∷ [])

is_duplicate-record_key_example :
    let m = record_key toy true (key 12) (record_all toy events (open_ledger old_file)) in
    is_duplicate toy (key 3) (open_ledger m.file) ≡ is_duplicate toy (key 3) m
unfolding program
is_duplicate-record_key_example =
    is_duplicate-record_key toy toy_solid (key 3) (key 12) old_file events refl

-- With a colon in an agent type two keys can have one text.
raw_key-collision :
    raw_key (record (key 3) { agent_type = codes "a"; event_id = codes "b:c" })
    ≡ raw_key (record (key 3) { agent_type = codes "a:b"; event_id = codes "c" })
unfolding program
raw_key-collision = refl

-- ===== src/IdempotencyLedger.antt =====
-- nexus/core/idempotency.py: the ledger of the step completions that were processed, with its file.
-- (The database backend is not modelled.) A text is the list of its character codes. The digest
-- (SHA-256, in hexadecimal) is a parameter. The set of digests is a list without repetitions.
pub mod Keys
pub mod Seen
pub mod Tests
use nexus_arc.Base.{
  ℕ, ◌+◌, Bool, true, false, not, ◌&&◌, ◌||◌, ◌<◌, Option, none, some, List, [], ◌∷◌, ◌++◌, any,
  keep, code_eq, decimal, strip, ltb, ◌==◌, if◌then◌else◌,
}

abbrev pub Text : Type 0
Text = List ℕ

pub record IdempotencyKey : Type 0 where
  pub issue_id : Text
  pub step_num : ℕ
  pub agent_type : Text
  pub event_id : Text

-- `f"{issue_id}:{step_num}:{agent_type}:{event_id}"`
unfoldable pub raw_key : IdempotencyKey → Text
raw_key k = k.issue_id ++ b':' ∷ (decimal k.step_num ++ b':' ∷ (k.agent_type ++ b':' ∷ k.event_id))

abbrev pub mem_code : Text → List Text → Bool
mem_code t = any (code_eq t)

-- What the file holds: nothing, something that is no JSON list or no object with a list under "seen"
-- (or that cannot be read), or such a list, each item as `str(item)`.
pub data LedgerFile : Type 0 where
  missing unreadable : LedgerFile
  items : List Text → LedgerFile

-- The set of the items of a list.
unfoldable pub to_set : List Text → List Text
to_set [] = []
to_set (t ∷ ts) = let rest = to_set ts in if mem_code t rest then rest else t ∷ rest

-- `str(item).strip()` is not empty.
abbrev pub is_blank : Text → Bool
is_blank t = code_eq (strip t) []

unfoldable pub load_legacy_file_seen : LedgerFile → List Text
load_legacy_file_seen missing = []
load_legacy_file_seen unreadable = []
load_legacy_file_seen (items ts) = to_set (keep (λ t. not (is_blank t)) ts)

-- `<=` on texts, by the character codes.
unfoldable pub text_le : Text → Text → Bool
text_le [] t = true
text_le (a ∷ as') [] = false
text_le (a ∷ as') (b ∷ bs) = ltb a b || ((a == b) && text_le as' bs)

unfoldable pub insert : Text → List Text → List Text
insert t [] = t ∷ []
insert t (u ∷ us) = let rest = insert t us in if text_le t u then t ∷ u ∷ us else u ∷ rest

unfoldable pub sorted : List Text → List Text
sorted [] = []
sorted (t ∷ ts) = insert t (sorted ts)

pub record Ledger : Type 0 where
  pub seen : List Text
  pub file : LedgerFile

-- A new ledger on a file.
unfoldable pub open_ledger : LedgerFile → Ledger
open_ledger file = record { seen = load_legacy_file_seen file; file = file }

-- `_save`: the new file takes the place of the old one, or nothing is changed if that fails.
unfoldable pub save : Bool → Ledger → Ledger
save writes l = if writes then record l { file = items (sorted l.seen) } else l

module _ (digest : Text → Text) where
  unfoldable pub as_string : IdempotencyKey → Text
  as_string k = digest (raw_key k)

  unfoldable pub is_duplicate : IdempotencyKey → Ledger → Bool
  is_duplicate k l = mem_code (as_string k) l.seen

  -- `record`, with whether the file can be written.
  unfoldable pub record_key : Bool → IdempotencyKey → Ledger → Ledger
  record_key writes k l =
      if mem_code (as_string k) l.seen
      then l
      else save writes (record l { seen = as_string k ∷ l.seen })

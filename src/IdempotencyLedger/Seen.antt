-- ===== src/IdempotencyLedger/Seen.antt =====
-- The ledger against the set of the keys that were recorded, and a restart from its file.
use nexus_arc.Base.{
  ◌≡◌, refl, ◌∙◌, Bool, true, false, not, ◌&&◌, ◌||◌, ◌⊎◌, ◌↔◌, inl, inr, List, [], ◌∷◌, map, any,
  keep, arith, code_eq, code_eq_refl, code_eq→eq, Bool-cases, if_ind,
}
use nexus_arc.IdempotencyLedger.{
  Text, IdempotencyKey, raw_key, mem_code, LedgerFile, items, missing, unreadable, to_set, is_blank,
  load_legacy_file_seen, insert, sorted, Ledger, open_ledger, save, as_string, is_duplicate,
  record_key,
}
use nexus_arc.IdempotencyLedger.Keys.{no_colon, raw_key_injective}

mem_code-insert : (d t : Text) (us : List Text) → mem_code d (insert t us) ≡ mem_code d (t ∷ us)
unfolding insert
mem_code-insert d t [] = refl
mem_code-insert d t (u ∷ us) = ground (arith, mem_code-insert d t us)

mem_code-sorted : (d : Text) (ts : List Text) → mem_code d (sorted ts) ≡ mem_code d ts
unfolding sorted
mem_code-sorted d [] = refl
mem_code-sorted d (t ∷ ts) = ground (arith, mem_code-insert d t (sorted ts), mem_code-sorted d ts)

mem_code-to_set : (d : Text) (ts : List Text) → mem_code d (to_set ts) ≡ mem_code d ts
unfolding to_set
mem_code-to_set d [] = refl
mem_code-to_set d (t ∷ ts) =
    ground (arith, mem_code-to_set d ts, mem_code-to_set t ts, code_eq→eq d t)

-- An item that is not blank is kept.
mem_code-keep :
    (d : Text) (ts : List Text)
    → mem_code d (keep (λ t. not (is_blank t)) ts) ≡ (not (is_blank d) && mem_code d ts)
mem_code-keep d [] = ground arith
mem_code-keep d (t ∷ ts) = ground (arith, mem_code-keep d ts, code_eq→eq d t)

module _ (digest : Text → Text) where
  -- Keys are recorded one after the other; each time the file can be written or not.
  unfoldable pub record_all : List (Bool × IdempotencyKey) → Ledger → Ledger
  record_all [] l = l
  record_all ((writes, k) ∷ es) l = record_all es (record_key digest writes k l)

  mem_code-record_key :
      (writes : Bool) (d : Text) (k : IdempotencyKey) (l : Ledger)
      → mem_code d (record_key digest writes k l).seen
        ≡ (code_eq d (as_string digest k) || mem_code d l.seen)
  unfolding record_key save
  mem_code-record_key writes d k l = ground (arith, code_eq→eq d (as_string digest k))

  is_duplicate-record_all :
      (k : IdempotencyKey) (es : List (Bool × IdempotencyKey)) (l : Ledger)
      → is_duplicate digest k (record_all es l) ≡ (
          any (λ e. code_eq (as_string digest k) (as_string digest e.1)) es
          || is_duplicate digest k l)
  unfolding record_all is_duplicate
  is_duplicate-record_all k [] l = refl
  is_duplicate-record_all k ((writes, j) ∷ es) l = ground (
    arith,
    is_duplicate-record_all k es (record_key digest writes j l),
    mem_code-record_key writes (as_string digest k) j l,
  )

  -- The key stands among those of the records.
  abbrev pub Occurs : IdempotencyKey → List (Bool × IdempotencyKey) → Type 0
  Occurs k [] = ⊥
  Occurs k ((writes, j) ∷ es) = (k ≡ j) ⊎ Occurs k es

  -- The issue id and the agent type have no colon.
  abbrev pub IsPlain : IdempotencyKey → Type 0
  IsPlain k = (no_colon k.issue_id ≡ true) × (no_colon k.agent_type ≡ true)

  -- The keys of the records are plain too, and the digest of none is that of another text.
  abbrev pub IsTold : IdempotencyKey → List (Bool × IdempotencyKey) → Type 0
  IsTold k [] = Unit
  IsTold k ((writes, j) ∷ es) =
      IsPlain j × (digest (raw_key k) ≡ digest (raw_key j) → raw_key k ≡ raw_key j) × IsTold k es

  Occurs-iff :
      (k : IdempotencyKey) (es : List (Bool × IdempotencyKey))
      → IsPlain k
      → IsTold k es
      → (any (λ e. code_eq (as_string digest k) (as_string digest e.1)) es ≡ true) ↔ Occurs k es
  unfolding as_string
  Occurs-iff k [] plain told = (λ e. absurd (ground (arith, e)), λ o. absurd o)
  Occurs-iff k ((writes, j) ∷ es) plain told =
      let (there, back) = Occurs-iff k es plain told.2 in
      let d = as_string digest k in
      let e = as_string digest j in
      (
        λ h. elim (Bool-cases (code_eq d e)) [
          | inl same ↦ inl (
              raw_key_injective k j plain.0 told.0.0 plain.1 told.0.1
                (told.1 (code_eq→eq d e same)))
          | inr other ↦ inr (there (rw other at h))
        ],
        λ o. elim o [
          | inl same ↦ rw (← same, code_eq_refl d)
          | inr later ↦ ground (arith, back later)
        ],
      )

  -- A key is a duplicate exactly if it was one when the ledger was opened or it was recorded since,
  -- whichever of the writes of the file failed. The issue ids and agent types have no colon, and the
  -- key's digest is not that of another recorded key.
  pub is_duplicate_iff :
      (k : IdempotencyKey) (es : List (Bool × IdempotencyKey)) (file : LedgerFile)
      → IsPlain k
      → IsTold k es
      → (is_duplicate digest k (record_all es (open_ledger file)) ≡ true)
        ↔ (Occurs k es ⊎ (is_duplicate digest k (open_ledger file) ≡ true))
  is_duplicate_iff k es file plain told =
      let (there, back) = Occurs-iff k es plain told in
      let e = is_duplicate-record_all k es (open_ledger file) in
      let hit =
        any (λ (e : Bool × IdempotencyKey). code_eq (as_string digest k) (as_string digest e.1))
          es in
      rw (e) (
        λ h. elim (Bool-cases hit) [ inl x ↦ inl (there x) | inr x ↦ inr (rw x at h) ],
        λ o. elim o [ inl x ↦ rw (back x) | inr y ↦ ground (arith, y) ],
      )

  -- The file has what is in memory.
  abbrev Agrees : Ledger → Type 0
  Agrees l = (d : Text) → mem_code d (load_legacy_file_seen l.file) ≡ mem_code d l.seen

  module _ (solid : (t : Text) → is_blank (digest t) ≡ false) where
    abbrev Solid : Ledger → Type 0
    Solid l = (d : Text) → mem_code d l.seen ≡ true → is_blank d ≡ false

    added-Solid :
        (k : IdempotencyKey) (l : Ledger)
        → Solid l
        → Solid (record l { seen = as_string digest k ∷ l.seen })
    unfolding as_string
    added-Solid k l full d h = elim (Bool-cases (code_eq d (as_string digest k))) [
      | inl e ↦ rw (code_eq→eq d (as_string digest k) e) (solid (raw_key k))
      | inr e ↦ full d (rw e at h)
    ]

    -- A write of the file leaves there what is in memory.
    saved-Agrees : (l : Ledger) → Solid l → Agrees (save true l)
    unfolding save load_legacy_file_seen
    saved-Agrees l full d =
        mem_code-to_set d (keep (λ t. not (is_blank t)) (sorted l.seen))
        ∙ mem_code-keep d (sorted l.seen)
        ∙ ground (arith, mem_code-sorted d l.seen, full d)

    record_key-Agrees :
        (k : IdempotencyKey) (l : Ledger)
        → Solid l
        → Agrees l
        → Agrees (record_key digest true k l) × Solid (record_key digest true k l)
    unfolding record_key
    record_key-Agrees k l full agrees =
        let l' = record l { seen = as_string digest k ∷ l.seen } in
        if_ind (λ m. Agrees m × Solid m) (mem_code (as_string digest k) l.seen)
          (λ _. (agrees, full))
          (λ _. (saved-Agrees l' (added-Solid k l full), unfold save in added-Solid k l full))

    opened-Solid : (file : LedgerFile) → Solid (open_ledger file)
    unfolding open_ledger load_legacy_file_seen
    opened-Solid missing d h = absurd (ground (arith, h))
    opened-Solid unreadable d h = absurd (ground (arith, h))
    opened-Solid (items ts) d h =
        ground (arith, h, mem_code-to_set d (keep (λ t. not (is_blank t)) ts), mem_code-keep d ts)

    record_all-Solid :
        (es : List (Bool × IdempotencyKey)) (l : Ledger) → Solid l → Solid (record_all es l)
    unfolding record_all record_key save
    record_all-Solid [] l full = full
    record_all-Solid ((writes, k) ∷ es) l full =
        record_all-Solid es (record_key digest writes k l) (
          if_ind Solid (mem_code (as_string digest k) l.seen) (λ _. full)
            (λ _. if_ind Solid writes (λ _. added-Solid k l full) (λ _. added-Solid k l full)))

    record_all-Agrees :
        (ks : List IdempotencyKey) (l : Ledger)
        → Solid l
        → Agrees l
        → Agrees (record_all (map (λ k. (true, k)) ks) l)
    unfolding record_all
    record_all-Agrees [] l full agrees = agrees
    record_all-Agrees (k ∷ ks) l full agrees =
        let (agrees', full') = record_key-Agrees k l full agrees in
        record_all-Agrees ks (record_key digest true k l) full' agrees'

    -- A ledger that is opened again on the file knows the same duplicates as the one that wrote it, if
    -- every write of the file succeeded and no digest is blank.
    pub is_duplicate-open_ledger :
        (k : IdempotencyKey) (file : LedgerFile) (ks : List IdempotencyKey)
        → let l = record_all (map (λ x. (true, x)) ks) (open_ledger file) in
          is_duplicate digest k (open_ledger l.file) ≡ is_duplicate digest k l
    unfolding is_duplicate open_ledger
    is_duplicate-open_ledger k file ks =
        record_all-Agrees ks (open_ledger file) (opened-Solid file) (λ d. refl) (as_string digest k)

    -- The same holds after writes that failed, once a key that is no duplicate was recorded with a write
    -- that succeeded: that write catches up with all of the others.
    pub is_duplicate-record_key :
        (k j : IdempotencyKey) (file : LedgerFile) (es : List (Bool × IdempotencyKey))
        → is_duplicate digest j (record_all es (open_ledger file)) ≡ false
        → let m = record_key digest true j (record_all es (open_ledger file)) in
          is_duplicate digest k (open_ledger m.file) ≡ is_duplicate digest k m
    unfolding is_duplicate open_ledger record_key
    is_duplicate-record_key k j file es new =
        let l = record_all es (open_ledger file) in
        rw (new, record_key)
          (saved-Agrees (record l { seen = as_string digest j ∷ l.seen })
            (added-Solid j l (record_all-Solid es (open_ledger file) (opened-Solid file)))
            (as_string digest k))

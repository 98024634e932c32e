-- ===== src/EventBus/Delivery.antt =====
-- Who hears an event after any sequence of operations on the bus.
use nexus_arc.Base.{
  ℕ, ◌≡◌, refl, ◌∙◌, ap, String, Bool, true, false, ◌||◌, Option, none, some, List, [], ◌∷◌, arith,
  is_some, str_eq, eq_iff, str_eq→eq, if◌then◌else◌, Bool-cases, inl, inr,
}
use nexus_arc.EventBus.{
  Subscription, Bus, put_subscription, subscribe, subscribe_pattern, remove, has_id, unsubscribe,
  clear, hears, matching,
}

-- An operation on the bus, and its run.
pub data Operation : Type 0 where
  subscribed : (sub_id event_type : String) (handler : ℕ) → Operation
  subscribed_pattern : (sub_id pattern : String) (handler : ℕ) → Operation
  unsubscribed : (sub_id : String) → Operation
  cleared : Operation

unfoldable pub apply : Operation → Bus → Bus
apply (subscribed i e h) bus = subscribe i e h bus
apply (subscribed_pattern i p h) bus = subscribe_pattern i p h bus
apply (unsubscribed i) bus = (unsubscribe i bus).0
apply cleared bus = clear bus

unfoldable pub run : List Operation → Bus → Bus
run [] bus = bus
run (o ∷ os) bus = run os (apply o bus)

-- What one id stands for after an operation, told without the other ids.
abbrev pub told : String → Operation → Option Subscription → Option Subscription
told k (subscribed i e h) o =
    if str_eq i k
    then some (record { id = i; event_type = e; handler = h; is_pattern = false })
    else o
told k (subscribed_pattern i p h) o =
    if str_eq i k
    then some (record { id = i; event_type = p; handler = h; is_pattern = true })
    else o
told k (unsubscribed i) o = if str_eq i k then none else o
told k cleared o = none

unfoldable pub active : String → List Operation → Option Subscription → Option Subscription
active k [] o = o
active k (p ∷ ps) o = active k ps (told k p o)

-- The subscription of an id.
abbrev pub find : String → Bus → Option Subscription
find k [] = none
find k (s ∷ ss) = let later = find k ss in if str_eq s.id k then some s else later

-- No id stands twice.
abbrev IsUnique : Bus → Type 0
IsUnique [] = Unit
IsUnique (s ∷ ss) = (has_id s.id ss ≡ false) × IsUnique ss

has_id-find : (k : String) (bus : Bus) → has_id k bus ≡ is_some (find k bus)
has_id-find k [] = refl
has_id-find k (s ∷ ss) = ground (arith, has_id-find k ss)

find-put_subscription :
    (k : String) (s : Subscription) (bus : Bus)
    → find k (put_subscription s bus) ≡ (if str_eq s.id k then some s else find k bus)
unfolding put_subscription
find-put_subscription k s [] = refl
find-put_subscription k s (t ∷ ts) =
    ground (arith, find-put_subscription k s ts, eq_iff t.id s.id, eq_iff t.id k, eq_iff s.id k)

has_id-put_subscription :
    (k : String) (s : Subscription) (bus : Bus)
    → has_id k (put_subscription s bus) ≡ (str_eq s.id k || has_id k bus)
unfolding put_subscription
has_id-put_subscription k s [] = refl
has_id-put_subscription k s (t ∷ ts) =
    ground (arith, has_id-put_subscription k s ts, eq_iff t.id s.id, eq_iff t.id k, eq_iff s.id k)

put_subscription-IsUnique :
    (s : Subscription) (bus : Bus) → IsUnique bus → IsUnique (put_subscription s bus)
unfolding put_subscription
put_subscription-IsUnique s [] u = (refl, tt)
put_subscription-IsUnique s (t ∷ ts) u = elim (Bool-cases (str_eq t.id s.id)) [
  | inl e ↦ rw (e) (rw (← str_eq→eq t.id s.id e) u.0, u.1)
  | inr e ↦ rw (e) (
    ground (arith, e, has_id-put_subscription t.id s ts, u.0, eq_iff s.id t.id, eq_iff t.id s.id),
    put_subscription-IsUnique s ts u.1,
  )
]

has_id-remove_other :
    (k i : String) (bus : Bus) → has_id k bus ≡ false → has_id k (remove i bus) ≡ false
unfolding remove
has_id-remove_other k i [] h = refl
has_id-remove_other k i (t ∷ ts) h = ground (arith, h, has_id-remove_other k i ts)

remove-IsUnique : (k : String) (bus : Bus) → IsUnique bus → IsUnique (remove k bus)
unfolding remove
remove-IsUnique k [] u = tt
remove-IsUnique k (t ∷ ts) u = elim (Bool-cases (str_eq t.id k)) [
  | inl e ↦ rw (e) u.1
  | inr e ↦ rw (e) (has_id-remove_other t.id k ts u.0, remove-IsUnique k ts u.1)
]

not_found : (k : String) (bus : Bus) → has_id k bus ≡ false → find k bus ≡ none
not_found k bus h = ground (arith, has_id-find k bus, h)

find-remove :
    (k i : String) (bus : Bus)
    → IsUnique bus
    → find k (remove i bus) ≡ (if str_eq i k then none else find k bus)
unfolding remove
find-remove k i [] u = ground arith
find-remove k i (t ∷ ts) u = elim (Bool-cases (str_eq t.id i)) [
  | inl e ↦
      let gone : find t.id ts ≡ none = not_found t.id ts u.0 in
      rw (e) (ground (arith, str_eq→eq t.id i e, gone, eq_iff t.id k, eq_iff i k))
  | inr e ↦ ground (arith, e, find-remove k i ts u.1, eq_iff t.id i, eq_iff t.id k, eq_iff i k)
]

apply-IsUnique : (o : Operation) (bus : Bus) → IsUnique bus → IsUnique (apply o bus)
unfolding apply subscribe subscribe_pattern unsubscribe clear
apply-IsUnique (subscribed i e h) bus u = put_subscription-IsUnique _ bus u
apply-IsUnique (subscribed_pattern i e h) bus u = put_subscription-IsUnique _ bus u
apply-IsUnique (unsubscribed i) bus u = remove-IsUnique i bus u
apply-IsUnique cleared bus u = tt

find-apply :
    (k : String) (o : Operation) (bus : Bus)
    → IsUnique bus
    → find k (apply o bus) ≡ told k o (find k bus)
unfolding apply subscribe subscribe_pattern unsubscribe clear
find-apply k (subscribed i e h) bus u = find-put_subscription k _ bus
find-apply k (subscribed_pattern i e h) bus u = find-put_subscription k _ bus
find-apply k (unsubscribed i) bus u = find-remove k i bus u
find-apply k cleared bus u = refl

find-run :
    (k : String) (os : List Operation) (bus : Bus)
    → IsUnique bus
    → (find k (run os bus) ≡ active k os (find k bus)) × IsUnique (run os bus)
unfolding run active
find-run k [] bus u = (refl, u)
find-run k (o ∷ os) bus u =
    let (e, v) = find-run k os (apply o bus) (apply-IsUnique o bus u) in
    (e ∙ ap (active k os) (find-apply k o bus u), v)

module _ (fnmatch : String → String → Bool) (event_type : String) where
  has_id-matching :
      (k : String) (bus : Bus)
      → IsUnique bus
      → has_id k (matching fnmatch event_type bus)
        ≡ elim (find k bus) [ none ↦ false | some s ↦ hears fnmatch event_type s ]
  unfolding matching
  has_id-matching k [] u = refl
  has_id-matching k (s ∷ ss) u = elim (Bool-cases (str_eq s.id k)) [
    | inl e ↦
        let gone : find k ss ≡ none = not_found k ss (rw (← str_eq→eq s.id k e) u.0) in
        ground (arith, e, gone, has_id-matching k ss u.1)
    | inr e ↦ ground (arith, e, has_id-matching k ss u.1)
  ]

-- After any sequence of operations on an empty bus an event is given to the subscription of an id
-- exactly if the last operation that concerns the id has subscribed it, and what it subscribed to
-- matches the event; and `unsubscribe` returns whether the id is subscribed.
pub has_id-run :
    (fnmatch : String → String → Bool) (event_type k : String) (os : List Operation)
    → (has_id k (matching fnmatch event_type (run os []))
        ≡ elim (active k os none) [ none ↦ false | some s ↦ hears fnmatch event_type s ])
      × ((unsubscribe k (run os [])).1 ≡ is_some (active k os none))
unfolding unsubscribe
has_id-run fnmatch event_type k os =
    let (e, u) = find-run k os [] tt in
    (
      rw (← e) (has_id-matching fnmatch event_type k (run os []) u),
      rw (← e) (has_id-find k (run os [])),
    )

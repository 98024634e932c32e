-- ===== src/EventBus.antt =====
-- nexus/core/events.py: the event bus. The subscriptions are the entries of the dictionary, in its
-- order. A new id (`uuid.uuid4()`) is an argument of the call that makes it; fnmatch is a parameter; a
-- handler is a number. The lock makes each operation on the dictionary a step of its own.
pub mod Delivery
pub mod Tests
use nexus_arc.Base.{
  ℕ, String, Bool, true, false, not, Option, none, some, List, [], ◌∷◌, length, str_eq, keep, any,
  count_if, map, if◌then◌else◌,
}

-- `_Subscription`
pub record Subscription : Type 0 where
  pub id : String
  pub event_type : String
  pub handler : ℕ
  pub is_pattern : Bool

abbrev pub Bus : Type 0
Bus = List Subscription

-- `self._subscriptions[sub_id] = sub`: a key keeps its place.
unfoldable pub put_subscription : Subscription → Bus → Bus
put_subscription s [] = s ∷ []
put_subscription s (t ∷ ts) =
    let later = put_subscription s ts in if str_eq t.id s.id then s ∷ ts else t ∷ later

unfoldable pub subscribe : String → String → ℕ → Bus → Bus
subscribe sub_id event_type handler bus =
    put_subscription
      (record { id = sub_id; event_type = event_type; handler = handler; is_pattern = false }) bus

unfoldable pub subscribe_pattern : String → String → ℕ → Bus → Bus
subscribe_pattern sub_id pattern handler bus =
    put_subscription
      (record { id = sub_id; event_type = pattern; handler = handler; is_pattern = true }) bus

-- `self._subscriptions.pop(key, None)`
unfoldable pub remove : String → Bus → Bus
remove k [] = []
remove k (t ∷ ts) = let rest = remove k ts in if str_eq t.id k then ts else t ∷ rest

abbrev pub has_id : String → Bus → Bool
has_id k = any (λ s. str_eq s.id k)

-- The bus, and whether there was such a subscription.
unfoldable pub unsubscribe : String → Bus → Bus × Bool
unsubscribe subscription_id bus = (remove subscription_id bus, has_id subscription_id bus)

unfoldable pub clear : Bus → Bus
clear bus = []

unfoldable pub subscriber_count : Option String → Bus → ℕ
subscriber_count none bus = length bus
subscriber_count (some event_type) bus = count_if (λ s. str_eq s.event_type event_type) bus

module _ (fnmatch : String → String → Bool) where
  unfoldable pub hears : String → Subscription → Bool
  hears event_type s =
      if s.is_pattern then fnmatch event_type s.event_type else str_eq s.event_type event_type

  -- The subscriptions whose handlers an event is given to.
  unfoldable pub matching : String → Bus → Bus
  matching event_type bus = keep (hears event_type) bus

  -- The handlers that are called, and those of them whose error is logged. All are called, also if
  -- some of them raise.
  unfoldable pub emit : (ℕ → Bool) → String → Bus → List ℕ × List ℕ
  emit raises event_type bus =
      let handlers = map (λ s. s.handler) (matching event_type bus) in
      (handlers, keep raises handlers)

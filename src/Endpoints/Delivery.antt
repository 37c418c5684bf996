-- ===== src/Endpoints/Delivery.antt =====
-- What a subscriber has been told: the last response to it, and what a broadcast makes of it.
use krossbar_bus.Common.{
  Bool, true, false, Option, none, some, List, [], ◌∷◌, ◌++◌, ◌==◌, ◌&&◌, ◌||◌, if◌then◌else◌, ◌≡◌,
  refl, arith,
}
use krossbar_bus.Endpoints.World.{Subscriber, Payload, World, respond, broadcast}

unfoldable pub same : Subscriber → Subscriber → Bool
same s t = s.0 == t.0 && s.1 == t.1

pub same_self : (t : Subscriber) → same t t ≡ true
unfolding same
same_self t = ground arith

unfoldable pub last_to :
    {Bson : Type 0} → Subscriber → List (Subscriber × Payload Bson) → Option (Payload Bson)
last_to s [] = none
last_to s ((t, p) ∷ log) = if same t s then some p else last_to s log

unfoldable pub member : Subscriber → List Subscriber → Bool
member s [] = false
member s (t ∷ ts) = same t s || member s ts

unfoldable pub filter : (Subscriber → Bool) → List Subscriber → List Subscriber
filter p [] = []
filter p (t ∷ ts) = let rest = filter p ts in if p t then t ∷ rest else rest

module _ {U Bson : Type 0} (takes : Subscriber → Bool) (b : Bson) where
  pub broadcast-filter :
      (ss : List Subscriber) (w : World U Bson) → (broadcast takes b ss w).0 ≡ filter takes ss
  unfolding broadcast filter
  broadcast-filter [] w = refl
  broadcast-filter (s ∷ ss) w = ground (arith, broadcast-filter ss (respond s (Payload.value b) w))

  -- Everyone in the list is told, nobody else is.
  pub last_to-broadcast :
      (t : Subscriber) (ss : List Subscriber) (w : World U Bson)
      → last_to t (broadcast takes b ss w).1.sent
        ≡ (if member t ss then some (Payload.value b) else last_to t w.sent)
  unfolding broadcast last_to member respond
  last_to-broadcast t [] w = refl
  last_to-broadcast t (s ∷ ss) w =
      ground (arith, last_to-broadcast t ss (respond s (Payload.value b) w))

module _ {U Bson : Type 0} (takes : Subscriber → Bool) (b : Bson) where
  pub values-broadcast :
      (ss : List Subscriber) (w : World U Bson) → (broadcast takes b ss w).1.values ≡ w.values
  unfolding broadcast respond
  values-broadcast [] w = refl
  values-broadcast (s ∷ ss) w = ground (arith, values-broadcast ss (respond s (Payload.value b) w))

pub member-filter :
    (p : Subscriber → Bool) (t : Subscriber) (ss : List Subscriber)
    → member t (filter p ss) ≡ true
    → member t ss ≡ true
unfolding member filter
member-filter p t [] h = h
member-filter p t (s ∷ ss) h = ground (arith, member-filter p t ss)

pub member-append :
    (t s : Subscriber) (ss : List Subscriber) → member t (ss ++ s ∷ []) ≡ (same s t || member t ss)
unfolding member
member-append t s [] = refl
member-append t s (r ∷ ss) = ground (arith, member-append t s ss)

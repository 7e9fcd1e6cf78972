-- ===== src/Api/Broker.antt =====
-- internal/api/sse.go: the broker, which fans events out and never blocks. Go walks its map of
-- streams in any order, which changes nothing of what each stream gets.
use snowdeploy.Base.{
  ℕ, ◌+◌, length, eqb, ltb, Bool, true, false, List, [], ◌∷◌, ◌++◌, if◌then◌else◌,
}
use snowdeploy.Effect.{Event}

abbrev pub subscriber_buffer : ℕ
subscriber_buffer = 64

-- A stream: what its channel holds, the oldest first.
pub record Subscriber : Type 0 where
  pub id : ℕ
  pub ch : List Event
  pub warned : Bool

-- `dropped` counts the calls of onDrop, `warnings` the lines that were logged.
pub record Broker : Type 0 where
  pub next : ℕ
  pub subs : List Subscriber
  pub dropped : ℕ
  pub warnings : ℕ

unfoldable pub new_broker : Broker
new_broker = record { next = 0; subs = []; dropped = 0; warnings = 0 }

unfoldable pub subscribe : Broker → ℕ × Broker
subscribe b =
    let id = b.next + 1 in
    (id, record b { next = id; subs = record { id = id; ch = []; warned = false } ∷ b.subs })

abbrev pub without : ℕ → List Subscriber → List Subscriber
without id [] = []
without id (s ∷ ss) = let rest = without id ss in if eqb s.id id then rest else s ∷ rest

-- The function that `subscribe` returns: the stream is removed and its channel closed.
unfoldable pub unsubscribe : ℕ → Broker → Broker
unsubscribe id b = record b { subs = without id b.subs }

abbrev pub has_room : Subscriber → Bool
has_room s = ltb (length s.ch) subscriber_buffer

-- The line that is logged for a stream's first drop.
unfoldable pub warn_once : Subscriber → ℕ → ℕ
warn_once s warnings = if s.warned then warnings else warnings + 1

-- One pass of the loop: the send, or the `default` of the select.
unfoldable pub offer : Event → Subscriber → Subscriber
offer ev s = if has_room s then record s { ch = s.ch ++ ev ∷ [] } else record s { warned = true }

unfoldable pub publish_to : Event → List Subscriber → Broker → Broker
publish_to ev [] b = b
publish_to ev (s ∷ ss) b =
    let rest = publish_to ev ss b in
    if has_room s then record rest { subs = offer ev s ∷ rest.subs } else record rest {
      subs = offer ev s ∷ rest.subs;
      dropped = rest.dropped + 1;
      warnings = warn_once s rest.warnings;
    }

unfoldable pub publish : Event → Broker → Broker
unfolding publish_to
publish ev b = publish_to ev b.subs (record b { subs = [] })

-- A stream's reader takes the oldest event of its channel, if there is one.
abbrev pub rest_of : List Event → List Event
rest_of [] = []
rest_of (ev ∷ evs) = evs

unfoldable pub receive_from : ℕ → List Subscriber → List Subscriber
receive_from id [] = []
receive_from id (s ∷ ss) =
    let rest = receive_from id ss in
    if eqb s.id id then record s { ch = rest_of s.ch } ∷ ss else s ∷ rest

unfoldable pub receive : ℕ → Broker → Broker
unfolding receive_from
receive id b = record b { subs = receive_from id b.subs }

-- ===== src/Api/Streams.antt =====
-- The broker's streams (internal/api/sse.go): what publish delivers, and that no channel overflows.
use snowdeploy.Base.{
  ℕ, suc, ◌+◌, ◌-◌, ◌≤◌, ◌<◌, ◌≡◌, refl, ap, ◌∙◌, ◌⊎◌, inl, inr, length, length-append, eqb, true,
  List, [], ◌∷◌, ◌++◌, All, arith, Bool-cases, if◌then◌else◌,
}
use snowdeploy.Effect.{Event}
use snowdeploy.Api.Broker.{
  Subscriber, Broker, new_broker, subscribe, unsubscribe, without, has_room, warn_once, offer,
  publish_to, publish, rest_of, receive_from, receive,
}

-- What one publish does to one stream: the event goes last into its channel, or the channel holds 64
-- events, keeps them, and the stream is marked as warned.
abbrev pub IsOffered : Event → Subscriber → Subscriber → Type 0
IsOffered ev s t =
    (t.id ≡ s.id)
    × (((length s.ch < 64) × (t.ch ≡ s.ch ++ ev ∷ []) × (t.warned ≡ s.warned))
        ⊎ ((64 ≤ length s.ch) × (t.ch ≡ s.ch) × (t.warned ≡ true)))

abbrev pub AllOffered : Event → List Subscriber → List Subscriber → Type 0
AllOffered ev [] [] = Unit
AllOffered ev (s ∷ ss) (t ∷ ts) = IsOffered ev s t × AllOffered ev ss ts
AllOffered ev _ _ = ⊥

-- How many streams have no room, and how many of them were not warned before.
abbrev pub full_streams : List Subscriber → ℕ
full_streams [] = 0
full_streams (s ∷ ss) = let rest = full_streams ss in if has_room s then rest else suc rest

abbrev pub first_warnings : List Subscriber → ℕ
first_warnings [] = 0
first_warnings (s ∷ ss) =
    let rest = first_warnings ss in if has_room s then rest else warn_once s rest

offer-IsOffered : (ev : Event) (s : Subscriber) → IsOffered ev s (offer ev s)
unfolding offer
offer-IsOffered ev s = elim (Bool-cases (has_room s)) [
  | inl room ↦ rw room (refl, inl (ground arith, refl, refl))
  | inr full ↦ rw full (refl, inr (ground arith, refl, refl))
]

warn_once-add : (s : Subscriber) (n k : ℕ) → warn_once s (n + k) ≡ n + warn_once s k
unfolding warn_once
warn_once-add s n k = elim (Bool-cases s.warned) [
  | inl again ↦ rw again refl
  | inr first ↦ rw first (omega arith)
]

-- A publish offers the event to every stream, in one pass that never waits; it counts one drop for
-- each stream without room, and logs one warning for each of them that was not warned before.
pub publish-AllOffered :
    (ev : Event) (b : Broker)
    → let b' = publish ev b in
      AllOffered ev b.subs b'.subs
      × (b'.dropped ≡ b.dropped + full_streams b.subs)
      × (b'.warnings ≡ b.warnings + first_warnings b.subs)
      × (b'.next ≡ b.next)
unfolding publish
publish-AllOffered ev b = pass b.subs
  where
    pass :
        (ss : List Subscriber)
        → let b' = publish_to ev ss (record b { subs = [] }) in
          AllOffered ev ss b'.subs
          × (b'.dropped ≡ b.dropped + full_streams ss)
          × (b'.warnings ≡ b.warnings + first_warnings ss)
          × (b'.next ≡ b.next)
    pass [] = (tt, omega arith, omega arith, refl)
    pass (s ∷ ss) =
        let (offered, drops, warns, next) = pass ss in
        elim (Bool-cases (has_room s)) [
          | inl room ↦ rw room ((offer-IsOffered ev s, offered), drops, warns, next)
          | inr full ↦ rw full (
            (offer-IsOffered ev s, offered),
            omega (arith, drops),
            ap (λ (n : ℕ). warn_once s n) warns ∙ warn_once-add s b.warnings (first_warnings ss),
            next,
          )
        ]

-- An operation on the broker, or a stream's reader.
pub data Use : Type 0 where
  subscribes : Use
  unsubscribes receives : ℕ → Use
  publishes : Event → Use

abbrev pub used : Use → Broker → Broker
used subscribes b = (subscribe b).1
used (unsubscribes id) b = unsubscribe id b
used (receives id) b = receive id b
used (publishes ev) b = publish ev b

abbrev pub used_all : List Use → Broker → Broker
used_all [] b = b
used_all (u ∷ us) b = used_all us (used u b)

-- No channel holds more than its 64 events, the newest stream is first, and no two have one id.
abbrev pub Descending : ℕ → List Subscriber → Type 0
Descending n [] = Unit
Descending n (s ∷ ss) = (s.id ≤ n) × (0 < s.id) × Descending (s.id - 1) ss

pub record IsSound (b : Broker) : Type 0 where
  pub bounded : All (λ s. length s.ch ≤ 64) b.subs
  pub ids_distinct : Descending b.next b.subs

Descending-weaken : (n k : ℕ) (ss : List Subscriber) → n ≤ k → Descending n ss → Descending k ss
Descending-weaken n k [] le d = tt
Descending-weaken n k (s ∷ ss) le d = (omega (arith, d.0), d.1, d.2)

Descending-without :
    (id n : ℕ) (ss : List Subscriber) → Descending n ss → Descending n (without id ss)
Descending-without id n [] d = tt
Descending-without id n (s ∷ ss) d =
    let rest = Descending-without id (s.id - 1) ss d.2 in
    elim (Bool-cases (eqb s.id id)) [
      | inl gone ↦
          rw gone (Descending-weaken (s.id - 1) n (without id ss) (omega (arith, d.0)) rest)
      | inr other ↦ rw other (d.0, d.1, rest)
    ]

bounded-without :
    (id : ℕ) (ss : List Subscriber)
    → All (λ s. length s.ch ≤ 64) ss
    → All (λ s. length s.ch ≤ 64) (without id ss)
bounded-without id [] h = tt
bounded-without id (s ∷ ss) h = elim (Bool-cases (eqb s.id id)) [
  | inl gone ↦ rw gone (bounded-without id ss h.1)
  | inr other ↦ rw other (h.0, bounded-without id ss h.1)
]

rest_of-le : (evs : List Event) → length evs ≤ 64 → length (rest_of evs) ≤ 64
rest_of-le [] h = h
rest_of-le (ev ∷ evs) h = omega (arith, h)

receive-IsSound : (id : ℕ) (b : Broker) → IsSound b → IsSound (receive id b)
unfolding receive receive_from
receive-IsSound id b s = record {
  bounded = fits b.subs s.bounded;
  ids_distinct = ids b.next b.subs s.ids_distinct;
}
  where
    fits :
        (ss : List Subscriber)
        → All (λ s. length s.ch ≤ 64) ss
        → All (λ s. length s.ch ≤ 64) (receive_from id ss)
    fits [] h = tt
    fits (s ∷ ss) h = elim (Bool-cases (eqb s.id id)) [
      | inl own ↦ rw own (rest_of-le s.ch h.0, h.1)
      | inr other ↦ rw other (h.0, fits ss h.1)
    ]

    ids : (n : ℕ) (ss : List Subscriber) → Descending n ss → Descending n (receive_from id ss)
    ids n [] d = tt
    ids n (s ∷ ss) d = elim (Bool-cases (eqb s.id id)) [
      | inl own ↦ rw own d
      | inr other ↦ rw other (d.0, d.1, ids (s.id - 1) ss d.2)
    ]

publish-IsSound : (ev : Event) (b : Broker) → IsSound b → IsSound (publish ev b)
publish-IsSound ev b s =
    let (offered, drops, warns, next) = publish-AllOffered ev b in
    record {
      bounded = fits b.subs (publish ev b).subs offered s.bounded;
      ids_distinct =
          Descending-weaken b.next (publish ev b).next (publish ev b).subs (omega (arith, next))
            (ids b.next b.subs (publish ev b).subs offered s.ids_distinct);
    }
  where
    fit : (s t : Subscriber) → IsOffered ev s t → length s.ch ≤ 64 → length t.ch ≤ 64
    fit s t (same, inl (room, last, w)) h =
        omega (arith, ap (λ (evs : List Event). length evs) last, length-append s.ch (ev ∷ []))
    fit s t (same, inr (full, kept, w)) h =
        omega (arith, ap (λ (evs : List Event). length evs) kept)

    fits :
        (ss ts : List Subscriber)
        → AllOffered ev ss ts
        → All (λ s. length s.ch ≤ 64) ss
        → All (λ s. length s.ch ≤ 64) ts
    fits [] [] o h = tt
    fits [] (t ∷ ts) o h = absurd o
    fits (s ∷ ss) [] o h = absurd o
    fits (s ∷ ss) (t ∷ ts) o h = (fit s t o.0 h.0, fits ss ts o.1 h.1)

    ids :
        (n : ℕ) (ss ts : List Subscriber) → AllOffered ev ss ts → Descending n ss → Descending n ts
    ids n [] [] o d = tt
    ids n [] (t ∷ ts) o d = absurd o
    ids n (s ∷ ss) [] o d = absurd o
    ids n (s ∷ ss) (t ∷ ts) o d =
        let rest = ids (s.id - 1) ss ts o.1 d.2 in
        (
          omega (arith, d.0, o.0.0),
          omega (arith, d.1, o.0.0),
          Descending-weaken (s.id - 1) (t.id - 1) ts (omega (arith, o.0.0)) rest,
        )

used-IsSound : (u : Use) (b : Broker) → IsSound b → IsSound (used u b)
unfolding subscribe unsubscribe
used-IsSound subscribes b s = record {
  bounded = (omega arith, s.bounded);
  ids_distinct = (
    omega arith,
    omega arith,
    Descending-weaken b.next (b.next + 1 - 1) b.subs (omega arith) s.ids_distinct,
  );
}
used-IsSound (unsubscribes id) b s = record {
  bounded = bounded-without id b.subs s.bounded;
  ids_distinct = Descending-without id b.next b.subs s.ids_distinct;
}
used-IsSound (receives id) b s = receive-IsSound id b s
used-IsSound (publishes ev) b s = publish-IsSound ev b s

-- Through any uses, from the new broker on, no channel holds more than 64 events, and no two streams
-- share an id.
pub used_all-IsSound : (us : List Use) → IsSound (used_all us new_broker)
unfolding new_broker
used_all-IsSound us = from us new_broker (record { bounded = tt; ids_distinct = tt })
  where
    from : (vs : List Use) (b : Broker) → IsSound b → IsSound (used_all vs b)
    from [] b s = s
    from (v ∷ vs) b s = from vs (used v b) (used-IsSound v b s)

-- ===== src/Revision/Cache.antt =====
-- What the cache of revisions answers, and that it stays bounded (internal/revision/revision.go).
use snowdeploy.Base.{
  ℕ, ◌+◌, ◌≤◌, ◌<◌, Text, ◌≡◌, refl, ap, ◌∙◌, ◌⊎◌, inl, inr, length, ltb, leb, true, List, [], ◌∷◌,
  Option, none, some, arith, Bool-cases, if◌then◌else◌,
}
use snowdeploy.Dict.{Dict, lookup, put, lookup-put, lookup-delete, length-put}
use snowdeploy.Revision.{
  Revision, CacheEntry, CachedSource, failure_retry, max_entries, new_cached, Verdict, decided,
  waits, fill_or_join, remembered, decide, cached_or_filling, store, fill,
}

-- A caller asks, or a fill ends with an outcome.
pub data Use : Type 0 where
  asks : Text → ℕ → Use
  ends : Text → Option Revision → ℕ → Use

abbrev pub used : Use → CachedSource → CachedSource
used (asks key now) c = (cached_or_filling key now c).1
used (ends key answer now) c = fill key answer now c

abbrev pub used_all : List Use → CachedSource → CachedSource
used_all [] c = c
used_all (u ∷ us) c = used_all us (used u c)

fill_or_join-entries :
    (key : Text) (o : Option (Unit {0})) (c : CachedSource)
    → (fill_or_join key o c).1.entries ≡ c.entries
fill_or_join-entries key none c = refl
fill_or_join-entries key (some u) c = refl

remembered-entries :
    (key : Text) (now : ℕ) (answer : Option Revision) (at : ℕ) (c : CachedSource)
    → (remembered key now answer at c).1.entries ≡ c.entries
remembered-entries key now (some rev) at c = refl
remembered-entries key now none at c = elim (Bool-cases (ltb now (at + failure_retry))) [
  | inl fresh ↦ rw fresh refl
  | inr stale ↦ rw stale (fill_or_join-entries key (lookup key c.fills) c)
]

decide-entries :
    (key : Text) (now : ℕ) (o : Option CacheEntry) (c : CachedSource)
    → (decide key now o c).1.entries ≡ c.entries
decide-entries key now none c = fill_or_join-entries key (lookup key c.fills) c
decide-entries key now (some e) c = remembered-entries key now e.answer e.at c

fill-bounded :
    (key : Text) (answer : Option Revision) (now : ℕ) (c : CachedSource)
    → length c.entries ≤ max_entries
    → length (fill key answer now c).entries ≤ max_entries
unfolding fill store
fill-bounded key answer now c h = elim (Bool-cases (leb max_entries (length c.entries))) [
  | inl full ↦ rw full (unfold put in omega arith)
  | inr room ↦ rw room (
      let room' : length c.entries < max_entries = ground arith in
      omega (arith, length-put key (record { answer = answer; at = now }) c.entries))
]

-- Through any uses, from the new cache on, there are at most 512 entries.
pub used_all-bounded : (us : List Use) → length (used_all us new_cached).entries ≤ 512
unfolding new_cached cached_or_filling
used_all-bounded us = from us new_cached (omega arith)
  where
    step :
        (u : Use) (c : CachedSource)
        → length c.entries ≤ max_entries
        → length (used u c).entries ≤ max_entries
    step (asks key now) c h = omega (
      arith,
      h,
      ap (λ (m : Dict CacheEntry). length m) (decide-entries key now (lookup key c.entries) c),
    )
    step (ends key answer now) c h = fill-bounded key answer now c h

    from :
        (vs : List Use) (c : CachedSource)
        → length c.entries ≤ max_entries
        → length (used_all vs c).entries ≤ max_entries
    from [] c h = h
    from (v ∷ vs) c h = from vs (used v c) (step v c h)

-- A fill of the key is in flight, and it is the one that was, or was launched now.
abbrev pub IsFilling : Text → CachedSource → CachedSource → Type 0
IsFilling key c c' =
    (lookup key c'.fills ≡ some tt)
    × ((c' ≡ c)
        ⊎ ((lookup key c.fills ≡ none) × (c'.started ≡ key ∷ c.started) × (c'.entries ≡ c.entries)))

-- What the cache answers for the entry that it holds.
abbrev pub IsAnswered :
    Text → ℕ → Option CacheEntry → CachedSource → Verdict × CachedSource → Type 0
IsAnswered key now (some e) c (decided (some rev), c') = (e.answer ≡ some rev) × (c' ≡ c)
IsAnswered key now (some e) c (decided none, c') =
    (e.answer ≡ none) × (now < e.at + failure_retry) × (c' ≡ c)
IsAnswered key now (some e) c (waits, c') =
    (e.answer ≡ none) × (e.at + failure_retry ≤ now) × IsFilling key c c'
IsAnswered key now none c (decided r, c') = ⊥
IsAnswered key now none c (waits, c') = IsFilling key c c'

fill_or_join-IsFilling :
    (key : Text) (o : Option (Unit {0})) (c : CachedSource)
    → lookup key c.fills ≡ o
    → IsFilling key c (fill_or_join key o c).1
fill_or_join-IsFilling key (some u) c e = (e, inl refl)
fill_or_join-IsFilling key none c e = (lookup-put key tt c.fills, inr (e, refl, refl))

joined-IsAnswered :
    (key : Text) (now : ℕ) (o : Option (Unit {0})) (c : CachedSource)
    → lookup key c.fills ≡ o
    → IsAnswered key now none c (fill_or_join key o c)
joined-IsAnswered key now (some u) c e = fill_or_join-IsFilling key (some u) c e
joined-IsAnswered key now none c e = fill_or_join-IsFilling key none c e

late-IsAnswered :
    (key : Text) (now : ℕ) (e : CacheEntry) (o : Option (Unit {0})) (c : CachedSource)
    → e.answer ≡ none
    → e.at + failure_retry ≤ now
    → lookup key c.fills ≡ o
    → IsAnswered key now (some e) c (fill_or_join key o c)
late-IsAnswered key now e (some u) c failed late f =
    (failed, late, fill_or_join-IsFilling key (some u) c f)
late-IsAnswered key now e none c failed late f = (failed, late, fill_or_join-IsFilling key none c f)

-- The cache answers for a key at once with the revision that it holds, and at once with nothing
-- while a failure is younger than ten minutes. Otherwise the caller waits: a fill of the key is in
-- flight, launched now if and only if there was none. An answer at once changes nothing.
cached_or_filling-IsAnswered :
    (key : Text) (now : ℕ) (c : CachedSource)
    → IsAnswered key now (lookup key c.entries) c (cached_or_filling key now c)
unfolding cached_or_filling
cached_or_filling-IsAnswered key now c = of_entry (lookup key c.entries)
  where
    of_answer :
        (e : CacheEntry) (r : Option Revision)
        → e.answer ≡ r
        → IsAnswered key now (some e) c (remembered key now r e.at c)
    of_answer e (some rev) same = (same, refl)
    of_answer e none same = elim (Bool-cases (ltb now (e.at + failure_retry))) [
      | inl fresh ↦ rw fresh (same, ground arith, refl)
      | inr stale ↦
          rw stale (late-IsAnswered key now e (lookup key c.fills) c same (ground arith) refl)
    ]

    of_entry : (o : Option CacheEntry) → IsAnswered key now o c (decide key now o c)
    of_entry none = joined-IsAnswered key now (lookup key c.fills) c refl
    of_entry (some e) = of_answer e e.answer refl

-- What callers get of a fill that ended at some time.
abbrev pub IsSettled : Text → Option Revision → ℕ → CachedSource → Type 0
IsSettled key (some rev) at c = (now : ℕ) → cached_or_filling key now c ≡ (decided (some rev), c)
IsSettled key none at c =
    (now : ℕ) → now < at + failure_retry → cached_or_filling key now c ≡ (decided none, c)

young-remembered :
    (key : Text) (now at : ℕ) (c : CachedSource)
    → now < at + failure_retry
    → remembered key now none at c ≡ (decided none, c)
young-remembered key now at c young =
    let fresh : ltb now (at + failure_retry) ≡ true = ground arith in rw fresh refl

-- Once a fill ends, none is in flight for its key, and callers are answered at once with its
-- outcome: with a revision at any time, with a failure for ten minutes.
fill-IsSettled :
    (key : Text) (answer : Option Revision) (at : ℕ) (c : CachedSource)
    → (lookup key (fill key answer at c).fills ≡ none)
      × IsSettled key answer at (fill key answer at c)
unfolding fill store cached_or_filling
fill-IsSettled key answer at c = (lookup-delete key c.fills, settled answer)
  where
    kept : Dict CacheEntry
    kept = if leb max_entries (length c.entries) then [] else c.entries

    settled : (r : Option Revision) → IsSettled key r at (fill key r at c)
    settled (some rev) = λ now.
        ap (λ (o : Option CacheEntry). decide key now o (fill key (some rev) at c))
          (lookup-put key (record { answer = some rev; at = at }) kept)
    settled none = λ now young.
        ap (λ (o : Option CacheEntry). decide key now o (fill key none at c))
          (lookup-put key (record { answer = none; at = at }) kept)
        ∙ young-remembered key now at (fill key none at c) young

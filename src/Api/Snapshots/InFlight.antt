-- ===== src/Api/Snapshots/InFlight.antt =====
-- What a new connection is shown of the journal (internal/api/sse.go, internal/journal/journal.go).
use mathlib.Core.Path.{subst}
use snowdeploy.Base.{
  Text, ◌≡◌, refl, ap, sym, In, ◌∙◌, ◌⊎◌, ◌↔◌, inl, inr, ◌==◌, true, false, List, [], ◌∷◌, ◌++◌,
  Option, none, some, Result, ok, err, arith, Bool-cases,
}
use snowdeploy.Base.Int.{pos}
use snowdeploy.Effect.{Event}
use snowdeploy.Journal.Defs.{Entry}
use snowdeploy.Journal.Table.{Table, is_unfinished}
use snowdeploy.Journal.Queries.{is_newer, recent}
use snowdeploy.Journal.Order.{All-In, is_newer_irrefl}
use snowdeploy.Journal.Newest.{IsHistory, recent-IsHistory}
use snowdeploy.Journal.Ids.{IsSound, Distinct}
use snowdeploy.Journal.Once.{Absent-of_In}
use snowdeploy.Api.Reads.{Sources, newest}
use snowdeploy.Api.Snapshots.{
  event_from_entry, in_flight, snapshot_of, snapshot_listed, snapshot_events,
}

-- The server over a journal.
abbrev pub over : Table → Sources → Sources
over t s = record s { recent = λ service n. recent none service n t }

-- A newest row of the service.
abbrev pub IsNewestRow : Text → Table → Entry → Type 0
IsNewestRow service t e =
    In e t.rows
    × ((e.service == service) ≡ true)
    × ((f : Entry) → In f t.rows → (f.service == service) ≡ true → is_newer f e ≡ false)

same_id : (es : List Entry) (e f : Entry) → Distinct es → In e es → In f es → e.id ≡ f.id → e ≡ f
same_id [] e f d m n h = absurd m
same_id (x ∷ es) e f d (inl p) (inl q) h = p ∙ sym q
same_id (x ∷ es) e f d (inl p) (inr n) h =
    absurd (Absent-of_In x.id f es d.0 n (sym h ∙ ap (λ (y : Entry). y.id) p))
same_id (x ∷ es) e f d (inr m) (inl q) h =
    absurd (Absent-of_In x.id e es d.0 m (h ∙ ap (λ (y : Entry). y.id) q))
same_id (x ∷ es) e f d (inr m) (inr n) h = same_id es e f d.1 m n h

equal_ids : (e f : Entry) → is_newer e f ≡ false → is_newer f e ≡ false → e.id ≡ f.id
equal_ids e f h k = ground arith

-- Two newest rows of a service are the same.
IsNewestRow-unique :
    (service : Text) (t : Table) (e f : Entry)
    → IsSound t
    → IsNewestRow service t e
    → IsNewestRow service t f
    → e ≡ f
IsNewestRow-unique service t e f s h k =
    same_id t.rows e f s.ids_distinct h.0 k.0 (equal_ids e f (k.2 e h.0 h.1) (h.2 f k.0 k.1))

-- The first row of the history is a newest one, and there is none only without rows.
abbrev pub IsNewest : Text → Table → Option Entry → Type 0
IsNewest service t none = (f : Entry) → In f t.rows → (f.service == service) ≡ true → ⊥
IsNewest service t (some e) = IsNewestRow service t e

history-IsNewest :
    (service : Text) (t : Table) (es : List Entry)
    → IsHistory service (pos 1) t es
    → IsNewest service t (newest (ok es))
history-IsNewest service t [] h = λ f m own. elim (h.3 f m own) [
  | inl absent ↦ absurd absent
  | inr (full, older) ↦ absurd (omega arith)
]
history-IsNewest service t (e ∷ es) h =
    let (row, own) = h.2 e (inl refl) in
    (
      row,
      own,
      λ f m same. elim (h.3 f m same) [
        | inl (inl p) ↦ is_newer_irrefl f e p
        | inl (inr n) ↦ All-In (λ x. is_newer x e ≡ false) f es h.0.0 n
        | inr (full, older) ↦ older.0
      ],
    )

pub recent-IsNewest :
    (service : Text) (t : Table) → IsNewest service t (newest (recent none service (pos 1) t))
recent-IsNewest service t =
    let (es, same, h) = recent-IsHistory service (pos 1) t in
    rw same (history-IsNewest service t es h)

abbrev pub ok_or_none : Result (List Text) → List Text
ok_or_none (err e) = []
ok_or_none (ok names) = names

-- An event of the newest row of a listed service, which is in flight.
abbrev pub Shows : Sources → Table → List Text → Event → Type 0
Shows s t names ev =
    (name : Text) × (e : Entry) × In name names
    × IsNewestRow name t e
    × (is_unfinished e ≡ true)
    × (ev ≡ event_from_entry s e)

In-append : {A : Type 0} (x : A) (xs ys : List A) → In x (xs ++ ys) ↔ (In x xs ⊎ In x ys)
In-append x [] ys = (λ m. inr m, elim [ inl m ↦ absurd m | inr m ↦ m ])
In-append x (y ∷ xs) ys =
    let (down, up) = In-append x xs ys in
    (
      elim [ inl p ↦ inl (inl p) | inr m ↦ elim (down m) [ inl n ↦ inl (inr n) | inr n ↦ inr n ] ],
      elim [ inl (inl p) ↦ inl p | inl (inr n) ↦ inr (up (inl n)) | inr n ↦ inr (up (inr n)) ],
    )

module _ (s : Sources) (t : Table) (sound : IsSound t) where
  ShowsRow : Text → Event → Type 0
  ShowsRow name ev =
      (e : Entry) × IsNewestRow name t e × (is_unfinished e ≡ true) × (ev ≡ event_from_entry s e)

  of_newest :
      (name : Text) (ev : Event) (o : Option Entry)
      → IsNewest name t o
      → In ev (in_flight (over t s) o) ↔ ShowsRow name ev
  unfolding ShowsRow event_from_entry
  of_newest name ev none h = (λ m. absurd m, λ (e, row, live, same). absurd (h e row.0 row.1))
  of_newest name ev (some e) h = elim (Bool-cases (is_unfinished e)) [
    | inl live ↦ rw live (
      elim [ inl p ↦ (e, h, live, p) | inr m ↦ absurd m ],
      λ (f, row, own, same). inl (
          same
          ∙ ap (λ (x : Entry). event_from_entry s x) (IsNewestRow-unique name t f e sound row h)),
    )
    | inr over_ ↦ rw over_ (
      λ m. absurd m,
      λ (f, row, own, same).
          let equal : f ≡ e = IsNewestRow-unique name t f e sound row h in
          let left : is_unfinished e ≡ true =
            subst (λ (x : Entry). is_unfinished x ≡ true) equal own in
          absurd (ground (arith, left, over_)),
    )
  ]

  snapshot_of-Shows :
      (names : List Text) (ev : Event) → In ev (snapshot_of (over t s) names) ↔ Shows s t names ev
  unfolding snapshot_of ShowsRow
  snapshot_of-Shows [] ev = (λ m. absurd m, λ h. absurd h.2)
  snapshot_of-Shows (n ∷ names) ev =
      let (down, up) =
        In-append ev (in_flight (over t s) (newest (recent none n (pos 1) t)))
          (snapshot_of (over t s) names) in
      let (first, back) = of_newest n ev (newest (recent none n (pos 1) t)) (recent-IsNewest n t) in
      let (rest, again) = snapshot_of-Shows names ev in
      (
        λ m. elim (down m) [
          | inl h ↦ let (e, row, live, same) = first h in (n, e, inl refl, row, live, same)
          | inr h ↦
              let (name, e, there, row, live, same) = rest h in
              (name, e, inr there, row, live, same)
        ],
        λ (name, e, there, row, live, same). elim there [
          | inl p ↦ up (inl (back (e, subst (λ (k : Text). IsNewestRow k t e) p row, live, same)))
          | inr h ↦ up (inr (again (name, e, h, row, live, same)))
        ],
      )

-- Over a sound journal, a new connection is sent exactly the events of the newest rows of the listed
-- services, of those rows that are in flight; where the services cannot be listed, it is sent none.
pub snapshot_events-Shows :
    (s : Sources) (t : Table)
    → IsSound t
    → (ev : Event) → In ev (snapshot_events (over t s)) ↔ Shows s t (ok_or_none s.services) ev
unfolding snapshot_events
snapshot_events-Shows s t sound ev = of_services s.services
  where
    of_services :
        (o : Result (List Text))
        → In ev (snapshot_listed (over t s) o) ↔ Shows s t (ok_or_none o) ev
    of_services (err e) = (λ m. absurd m, λ h. absurd h.2)
    of_services (ok names) = snapshot_of-Shows s t sound names ev

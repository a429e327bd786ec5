-- ===== src/Store/Timeline/Laws.antt =====
-- The timeline never meets a group without a record (bkb-store/src/sqlite.rs: timeline).
use bitcoin_knowledge_base.Base.{
  ℕ, zero, suc, String, ◌≡◌, refl, sym, subst, inl, inr, Bool, ◌&&◌, ◌||◌, Option, some, List, [],
  ◌∷◌, ◌==◌, eq_iff, ltb, eqb, Bool-cases, Option-cases, take, filter, All, In, here, there,
}
use bitcoin_knowledge_base.Store.Tables.{Db, Mention, alias_of}
use bitcoin_knowledge_base.Reconcile.Lookup.{raw, canonical_id, canonical_id_of_raw, group_id}
use bitcoin_knowledge_base.Reconcile.Bind.Merge.{IsStored}
use bitcoin_knowledge_base.Reconcile.Bind.Group.{IsGrouped}
use bitcoin_knowledge_base.Reconcile.View.Groups.{projected-group, canonical_id-stored}
use bitcoin_knowledge_base.Store.Timeline.{
  before, TimelineEvent, Timeline, in_range, tagged_rows, add_row, grouped, place_row, by_time,
  selected, event_of, events_of, timeline,
}

-- What the groups of the query share, whichever of their times is kept.
module _ (P : String → Type 0) where
  abbrev OfGroup : String × ℕ → Type 0
  OfGroup row = P row.0

  add_row-All :
      (row : String × ℕ) (rows : List (String × ℕ))
      → P row.0
      → All OfGroup rows
      → All OfGroup (add_row row rows)
  add_row-All row [] h hs = (h, tt)
  add_row-All (id, t) ((group, first) ∷ rows) h (k, ks) = elim (Bool-cases (id == group)) [
    | inl e ↦ rw e (k, ks)
    | inr e ↦ rw e (k, add_row-All (id, t) rows h ks)
  ]

  grouped-All : (rows : List (String × ℕ)) → All OfGroup rows → All OfGroup (grouped rows)
  grouped-All [] h = tt
  grouped-All (row ∷ rows) (h, hs) = add_row-All row (grouped rows) h (grouped-All rows hs)

  place_row-All :
      (row : String × ℕ) (rows : List (String × ℕ))
      → P row.0
      → All OfGroup rows
      → All OfGroup (place_row row rows)
  place_row-All row [] h hs = (h, tt)
  place_row-All (id, t) ((group, first) ∷ rows) h (k, ks) =
      elim (Bool-cases (ltb t first || (eqb t first && before id group))) [
        | inl e ↦ rw e (h, (k, ks))
        | inr e ↦ rw e (k, place_row-All (id, t) rows h ks)
      ]

  by_time-All : (rows : List (String × ℕ)) → All OfGroup rows → All OfGroup (by_time rows)
  by_time-All [] h = tt
  by_time-All (row ∷ rows) (h, hs) = place_row-All row (by_time rows) h (by_time-All rows hs)

  take-All : (n : ℕ) (rows : List (String × ℕ)) → All OfGroup rows → All OfGroup (take n rows)
  take-All zero rows h = tt
  take-All (suc n) [] h = tt
  take-All (suc n) (row ∷ rows) (h, hs) = (h, take-All n rows hs)

-- A record that is tagged with the concept and stands in the group.
abbrev pub Tagged : Db → String → String → Type 0
Tagged db concept group =
    (m : Mention) × In m db.mentions
    × (m.concept_slug ≡ concept)
    × IsStored db m.doc_id
    × (canonical_id db m.doc_id ≡ group)

tagged_rows-Tagged :
    (db : Db) (concept : String) (after until : Option ℕ) (ms : List Mention)
    → All (λ (m : Mention). In m db.mentions × (m.concept_slug ≡ concept)) ms
    → All (λ row. Tagged db concept row.0) (tagged_rows db after until ms)
unfolding tagged_rows
tagged_rows-Tagged db concept after until [] h = tt
tagged_rows-Tagged db concept after until (m ∷ ms) ((i, same), hs) =
    let P : List (String × ℕ) → Type 0 = All (OfGroup (Tagged db concept)) in
    let rest = tagged_rows-Tagged db concept after until ms hs in
    elim (Option-cases (raw db m.doc_id)) [
      | inl n ↦
          let skipped : tagged_rows db after until (m ∷ ms) ≡ tagged_rows db after until ms =
            rw (n, tagged_rows) refl in
          subst P (sym skipped) rest
      | inr (doc, e) ↦ elim (Bool-cases (in_range after until doc.created_at)) [
        | inl t ↦
            let stored : IsStored db m.doc_id = rw e refl in
            let group = group_id m.doc_id (alias_of m.doc_id db.aliases) in
            let kept : tagged_rows db after until (m ∷ ms)
                ≡ (group, doc.created_at) ∷ tagged_rows db after until ms =
              rw (e, t, tagged_rows) refl in
            subst P (sym kept) ((m, i, same, stored, canonical_id_of_raw db m.doc_id stored), rest)
        | inr f ↦
            let skipped : tagged_rows db after until (m ∷ ms) ≡ tagged_rows db after until ms =
              rw (e, f, tagged_rows) refl in
            subst P (sym skipped) rest
      ]
    ]

filter-All :
    (concept : String) (every ms : List Mention)
    → ((m : Mention) → In m ms → In m every)
    → All
        (λ (m : Mention). In m every × (m.concept_slug ≡ concept))
        (filter (λ (m : Mention). m.concept_slug == concept) ms)
filter-All concept every [] h = tt
filter-All concept every (m ∷ ms) h = elim (Bool-cases (m.concept_slug == concept)) [
  | inl t ↦ rw t (
    (h m (here refl), (eq_iff m.concept_slug concept).0 t),
    filter-All concept every ms (λ x i. h x (there i)),
  )
  | inr f ↦ rw f (filter-All concept every ms (λ x i. h x (there i)))
]

selected-Tagged :
    (db : Db) (concept : String) (after until : Option ℕ)
    → All (λ row. Tagged db concept row.0) (selected db concept after until)
unfolding selected
selected-Tagged db concept after until =
    let kept = filter (λ (m : Mention). m.concept_slug == concept) db.mentions in
    let rows = tagged_rows db after until kept in
    let P = Tagged db concept in
    take-All P 200 (by_time (grouped rows)) (
      by_time-All P (grouped rows) (
        grouped-All P rows (
          tagged_rows-Tagged db concept after until kept
            (filter-All concept db.mentions db.mentions (λ m i. i)))))

events_of-Tagged :
    (valid_date : String → Bool) (day : ℕ → String) (db : Db) (concept : String)
    (rows : List (String × ℕ))
    → IsGrouped db
    → All (λ row. Tagged db concept row.0) rows
    → (events : List TimelineEvent) × (events_of valid_date day db rows ≡ some events)
      × All (λ (e : TimelineEvent). Tagged db concept e.id) events
unfolding events_of event_of
events_of-Tagged valid_date day db concept [] g h = ([], refl, tt)
events_of-Tagged valid_date day db concept ((id, first) ∷ rows) g ((m, i, same, s, e), hs) =
    let (d, _, (shown, own)) =
      projected-group valid_date db m.doc_id (canonical_id db m.doc_id) g s
        (canonical_id-stored db g m.doc_id s) in
    let (events, es, tagged) = events_of-Tagged valid_date day db concept rows g hs in
    (
      event_of valid_date day d ∷ events,
      rw (← e) (rw shown (rw es refl)),
      ((m, i, same, s, sym own), tagged),
    )

-- On well-formed groups the timeline of a concept never fails, and each of its events is a group of a
-- stored record that is tagged with the concept.
pub timeline-Tagged :
    (valid_date : String → Bool) (day : ℕ → String) (concept : String) (after until : Option ℕ)
    (db : Db)
    → IsGrouped db
    → (t : Timeline) × (timeline valid_date day concept after until db ≡ some t)
      × All (λ (e : TimelineEvent). Tagged db concept e.id) t.events
unfolding timeline
timeline-Tagged valid_date day concept after until db g =
    let (events, e, tagged) =
      events_of-Tagged valid_date day db concept (selected db concept after until) g
        (selected-Tagged db concept after until) in
    (record { concept = concept; events = events }, rw e refl, tagged)

-- ===== src/Store/Timeline.antt =====
-- The timeline of a concept (bkb-store/src/sqlite.rs: timeline). How a mirror's date is checked and
-- how a time is written as a day (chrono) are parameters.
pub mod Laws
use bitcoin_knowledge_base.Base.{
  ℕ, zero, suc, ◌+◌, ◌-◌, ◌*◌, ◌/◌, ◌%◌, ◌^◌, ◌≤◌, ◌<◌, min, max, String, ◌≡◌, refl, sym, ap, ◌∙◌,
  subst, ◌≢◌, ◌↔◌, ◌⊎◌, inl, inr, Bool, true, false, not, ◌&&◌, ◌||◌, Option, none, some, List, [],
  ◌∷◌, ◌++◌, map, append_assoc, append-nil, arith, ◌==◌, eq_iff, eq_refl, ltb, leb, eqb,
  if◌then◌else◌, Bool-cases, Option-cases, eqb_iff, option_eq, option_eq_iff, is_some, unwrap_or,
  or_else, ◌>>=◌, ◌>>◌, guard, >>=-eq-some, guard-eq-some, not-eq-true, some_inj, &&-eq-true,
  ||-eq-true, length, take, any, all, filter, find, last?, All, In, here, there, In-filter,
  In-of_filter, In-append_left, In-append_right, In-of_append, All-In, length-append, find-In,
  In-any, any-In, all-In, In-map, In-of_map, append, concat, char_eq, char_eq_iff, char_eq_refl,
  is_empty, all_chars, any_char, is_ascii_digit, is_ascii_alphanumeric, is_whitespace, strip_prefix,
  starts_with, strip_suffix, split_once, rsplit_once, last_segment, first_segment, replace_first,
  replace, trim_start, trim_end, trim, split_char, split_whitespace, strip_prefix-append,
  strip_prefix_sound,
}
use bitcoin_knowledge_base.Base.Sorted.{before}
use bitcoin_knowledge_base.Model.SourceType.{SourceType}
use bitcoin_knowledge_base.Model.Document.{Document, url}
use bitcoin_knowledge_base.Store.Tables.{Db, Mention, alias_of}
use bitcoin_knowledge_base.Reconcile.Lookup.{raw, group_id}
use bitcoin_knowledge_base.Reconcile.View.{projected}

pub record TimelineEvent : Type 0 where
  pub date : String
  pub source_type : SourceType
  pub title : Option String
  pub id : String
  pub link : Option String

pub record Timeline : Type 0 where
  pub concept : String
  pub events : List TimelineEvent

-- `(?2 IS NULL OR d.created_at >= ?2) AND (?3 IS NULL OR d.created_at <= ?3)`
abbrev pub in_range : Option ℕ → Option ℕ → ℕ → Bool
in_range after until t =
    elim after [ none ↦ true | some a ↦ leb a t ] && elim until [ none ↦ true | some b ↦ leb t b ]

-- The join of the tags with their records: the group of each record, and its time.
unfoldable pub tagged_rows : Db → Option ℕ → Option ℕ → List Mention → List (String × ℕ)
unfolding raw alias_of
tagged_rows db after until [] = []
tagged_rows db after until (m ∷ ms) =
    let rest = tagged_rows db after until ms in
    elim (raw db m.doc_id) [
      | none ↦ rest
      | some doc ↦
          if in_range after until doc.created_at
          then (group_id m.doc_id (alias_of m.doc_id db.aliases), doc.created_at) ∷ rest
          else rest
    ]

-- `GROUP BY canonical` with `MIN(d.created_at)`
abbrev pub add_row : String × ℕ → List (String × ℕ) → List (String × ℕ)
add_row row [] = row ∷ []
add_row (id, t) ((group, first) ∷ groups) =
    if id == group then (group, min t first) ∷ groups else (group, first) ∷ add_row (id, t) groups

abbrev pub grouped : List (String × ℕ) → List (String × ℕ)
grouped [] = []
grouped (row ∷ rows) = add_row row (grouped rows)

-- `ORDER BY MIN(d.created_at), canonical`
abbrev pub place_row : String × ℕ → List (String × ℕ) → List (String × ℕ)
place_row row [] = row ∷ []
place_row (id, t) ((group, first) ∷ groups) =
    if ltb t first || (eqb t first && before id group)
    then (id, t) ∷ (group, first) ∷ groups
    else (group, first) ∷ place_row (id, t) groups

abbrev pub by_time : List (String × ℕ) → List (String × ℕ)
by_time [] = []
by_time (row ∷ rows) = place_row row (by_time rows)

-- The groups that the query selects.
unfoldable pub selected : Db → String → Option ℕ → Option ℕ → List (String × ℕ)
unfolding tagged_rows
selected db concept after until = take 200 (
    by_time (
      grouped (
        tagged_rows db after until
          (filter (λ (m : Mention). m.concept_slug == concept) db.mentions))))

module _ (valid_date : String → Bool) (day : ℕ → String) where
  unfoldable pub event_of : Document → TimelineEvent
  unfolding url
  event_of doc = record {
    date = day doc.created_at;
    source_type = doc.source_type;
    title = doc.title;
    id = doc.id;
    link = url doc;
  }

  -- A group without a record is the error `none` (`unwrap` panics).
  unfoldable pub events_of : Db → List (String × ℕ) → Option (List TimelineEvent)
  unfolding projected event_of
  events_of db [] = some []
  events_of db ((id, first) ∷ rest) = do
    doc ← projected valid_date db id
    events ← events_of db rest
    some (event_of doc ∷ events)

  unfoldable pub timeline : String → Option ℕ → Option ℕ → Db → Option Timeline
  unfolding selected events_of
  timeline concept after until db = do
    events ← events_of db (selected db concept after until)
    some (record { concept = concept; events = events })

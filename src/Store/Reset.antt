-- ===== src/Store/Reset.antt =====
-- Deleting everything of one source type (bkb-store/src/sqlite.rs: reset_source_type). How SQL's LIKE
-- matches is a parameter.
pub mod Keeps
use bitcoin_knowledge_base.Base.{
  ℕ, zero, suc, ◌+◌, ◌-◌, ◌*◌, ◌/◌, ◌%◌, ◌^◌, ◌≤◌, ◌<◌, min, max, String, ◌≡◌, refl, sym, ap, ◌∙◌,
  subst, ◌≢◌, ◌↔◌, ◌⊎◌, inl, inr, Bool, true, false, not, ◌&&◌, ◌||◌, Option, none, some, List, [],
  ◌∷◌, ◌++◌, map, append_assoc, append-nil, arith, ◌==◌, eq_iff, eq_refl, ltb, leb, eqb,
  if◌then◌else◌, Bool-cases, Option-cases, eqb_iff, option_eq, option_eq_iff, is_some, unwrap_or,
  or_else, ◌>>=◌, ◌>>◌, guard, >>=-eq-some, guard-eq-some, not-eq-true, some_inj, &&-eq-true,
  ||-eq-true, length, take, any, all, filter, find, last?, All, In, here, there, In-filter,
  In-of_filter, In-append_left, In-append_right, In-of_append, All-In, length-append, find-In,
  In-any, any-In, all-In, In-map, In-of_map, append, concat, char_eq, char_eq_iff, char_eq_refl,
  is_empty, all_chars, any_char, is_ascii_digit, is_ascii_alphanumeric, is_whitespace, strip_prefix,
  starts_with, strip_suffix, split_once, rsplit_once, last_segment, first_segment, replace_first,
  replace, trim_start, trim_end, trim, split_char, split_whitespace, strip_prefix-append,
  strip_prefix_sound,
}
use bitcoin_knowledge_base.Model.SourceType
use bitcoin_knowledge_base.Model.SourceType.{SourceType}
use bitcoin_knowledge_base.Model.Document.{Document, Reference, SyncState}
use bitcoin_knowledge_base.Store.Tables.{Db, Row, Link, Alias, Mention, Change}
use bitcoin_knowledge_base.Store.Pages.{listed}

unfoldable pub of_type : String → Row → Bool
of_type kind r = SourceType.as_str r.doc.source_type == kind

-- `SELECT id FROM documents WHERE source_type = kind`
unfoldable pub ids_of_type : String → List Row → List String
unfolding of_type
ids_of_type kind rows = map (λ r. r.doc.id) (filter (of_type kind) rows)

abbrev pub gone : List String → Option String → Bool
gone ids none = false
gone ids (some id) = listed id ids

-- The rows that the deletion of the records takes with it, by each of the three foreign keys.
unfoldable pub cascade_aliases : List String → List Alias → List Alias
cascade_aliases ids rows =
    filter (λ r. not (listed r.doc_id ids))
      (filter (λ r. not (listed r.canonical_id ids) && not (listed r.origin_id ids)) rows)

module _ (like : String → String → Bool) where
  unfoldable pub matches : String → String → Bool
  matches pattern id = if any_char (λ c. eqb c 37) pattern then like pattern id else id == pattern

  -- The number of deleted records, and the database.
  unfoldable pub reset_source_type : String → List String → Db → ℕ × Db
  unfolding ids_of_type cascade_aliases matches
  reset_source_type kind patterns db =
      let ids = ids_of_type kind db.documents in
      (
        length (filter (of_type kind) db.documents),
        record db {
          documents = filter (λ r. not (of_type kind r)) db.documents;
          links = filter (λ l. not (listed l.doc_id ids)) db.links;
          aliases = cascade_aliases ids db.aliases;
          refs = filter (λ r. not (listed r.from_doc_id ids) && not (gone ids r.to_doc_id)) db.refs;
          mentions = filter (λ m. not (listed m.doc_id ids)) db.mentions;
          change_log = filter (λ c. not (listed c.doc_id ids)) db.change_log;
          sync_states =
              filter (λ s. not (any (λ pattern. matches pattern s.source_id) patterns))
                db.sync_states;
        },
      )

-- ===== src/Ingest/Enrichment.antt =====
-- What is found in the text of a record (bkb-ingest/src/enrichment.rs), and the vocabulary in the
-- database (bkb-store/src/sqlite.rs: seed_concepts). The search for an alias between word boundaries
-- in the lower-cased text, and the references found by regular expressions, are parameters.
pub mod Laws
mod Tests
use bitcoin_knowledge_base.Base.{
  ℕ, zero, suc, ◌+◌, ◌-◌, ◌*◌, ◌/◌, ◌%◌, ◌^◌, ◌≤◌, ◌<◌, min, max, String, ◌≡◌, refl, sym, ap, ◌∙◌,
  subst, ◌≢◌, ◌↔◌, ◌⊎◌, inl, inr, Bool, true, false, not, ◌&&◌, ◌||◌, Option, none, some, List, [],
  ◌∷◌, ◌++◌, map, append_assoc, append-nil, arith, ◌==◌, eq_iff, eq_refl, ltb, leb, eqb,
  if◌then◌else◌, Bool-cases, Option-cases, eqb_iff, option_eq, option_eq_iff, is_some, unwrap_or,
  or_else, ◌>>=◌, ◌>>◌, guard, >>=-eq-some, guard-eq-some, not-eq-true, some_inj, &&-eq-true,
  ||-eq-true, length, take, any, all, filter, find, last?, All, In, here, there, In-filter,
  In-of_filter, In-append_left, In-append_right, In-of_append, All-In, length-append, find-In,
  In-any, any-In, all-In, In-map, In-of_map, append, concat, char_eq, char_eq_iff, char_eq_refl,
  is_empty, all_chars, any_char, is_ascii_digit, is_ascii_alphanumeric, is_whitespace, strip_prefix,
  starts_with, strip_suffix, split_once, rsplit_once, last_segment, first_segment, replace_first,
  replace, trim_start, trim_end, trim, split_char, split_whitespace, strip_prefix-append,
  strip_prefix_sound,
}
use bitcoin_knowledge_base.Model.Document.{Document, Reference}
use bitcoin_knowledge_base.Model.Concepts.{ConceptDef}
use bitcoin_knowledge_base.Model.Concepts.Network.{vocabulary}
use bitcoin_knowledge_base.Mirror.{MirrorOrigin, parse}
use bitcoin_knowledge_base.Store.Tables.{Db, Mention, has_slug}

-- `INSERT OR IGNORE INTO concepts`
unfoldable pub seed : List ConceptDef → List ConceptDef → List ConceptDef
seed [] rows = rows
seed (c ∷ cs) rows = seed cs (if has_slug c.slug rows then rows else rows ++ c ∷ [])

unfoldable pub seed_concepts : Db → Db
unfolding seed
seed_concepts db = record db { concepts = seed vocabulary db.concepts }

module _ (is_match : String → String → Bool) where
  -- The slugs of the concepts with an alias in the text, each with the confidence 1.0, in
  -- hundredths.
  unfoldable pub tags_among : List ConceptDef → String → List (String × ℕ)
  tags_among [] body = []
  tags_among (c ∷ cs) body =
      let rest = tags_among cs body in
      if any (λ alias. is_match alias body) c.aliases then (c.slug, 100) ∷ rest else rest

  unfoldable pub tag_concepts : String → List (String × ℕ)
  unfolding tags_among
  tag_concepts body = tags_among vocabulary body

-- The text at the origin, if the record is a mirrored one.
unfoldable pub searched_text : (String → Bool) → Document → String
unfolding parse
searched_text valid_date doc = elim (parse valid_date doc) [
  | some origin ↦ origin.body
  | none ↦ unwrap_or doc.body ""
]

unfoldable pub enrich_document :
    (String → String → Bool)
    → (Document → List Reference)
    → (String → Bool)
    → Document
    → List Reference × List (String × ℕ)
unfolding tag_concepts searched_text
enrich_document is_match extract valid_date doc =
    (extract doc, tag_concepts is_match (searched_text valid_date doc))

-- The tags as rows of a record.
unfoldable pub mentions_of : String → List (String × ℕ) → List Mention
mentions_of id tags =
    map {B = Mention} (λ t. record { doc_id = id; concept_slug = t.0; confidence = t.1 }) tags

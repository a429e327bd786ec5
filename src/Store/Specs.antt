-- ===== src/Store/Specs.antt =====
-- Finding a specification by its number (bkb-store/src/sqlite.rs: lookup_spec, lookup_bip and its
-- kin). Of several records that match, the query takes the first of the table.
pub mod Laws
mod Tests
use bitcoin_knowledge_base.Base.{
  ℕ, zero, suc, ◌+◌, ◌-◌, ◌*◌, ◌/◌, ◌%◌, ◌^◌, ◌≤◌, ◌<◌, min, max, String, ◌≡◌, refl, sym, ap, ◌∙◌,
  subst, ◌≢◌, ◌↔◌, ◌⊎◌, inl, inr, Bool, true, false, not, ◌&&◌, ◌||◌, Option, none, some, List, [],
  ◌∷◌, ◌++◌, map, append_assoc, append-nil, arith, ◌==◌, eq_iff, eq_refl, ltb, leb, eqb,
  if◌then◌else◌, Bool-cases, Option-cases, eqb_iff, option_eq, option_eq_iff, is_some, unwrap_or,
  or_else, ◌>>=◌, ◌>>◌, guard, >>=-eq-some, guard-eq-some, not-eq-true, some_inj, &&-eq-true,
  ||-eq-true, length, take, any, all, filter, find, last?, All, In, here, there, In-filter,
  In-of_filter, In-append_left, In-append_right, In-of_append, All-In, length-append, find-In,
  In-any, any-In, all-In, In-map, In-of_map, append, concat, char_eq, char_eq_iff, char_eq_refl,
  is_empty, all_chars, any_char, is_ascii_digit, is_ascii_alphanumeric, is_whitespace, strip_prefix,
  starts_with, strip_suffix, split_once, rsplit_once, last_segment, first_segment, replace_first,
  replace, trim_start, trim_end, trim, split_char, split_whitespace, strip_prefix-append,
  strip_prefix_sound,
}
use bitcoin_knowledge_base.Base.Decimal.{print}
use bitcoin_knowledge_base.Model.SourceType
use bitcoin_knowledge_base.Model.SourceType.{SourceType, bip, bolt, blip, lud, nut}
use bitcoin_knowledge_base.Model.Document.{Document, Reference, url}
use bitcoin_knowledge_base.Store.Tables.{Db, Row, Mention}
use bitcoin_knowledge_base.Reconcile.View.{DocumentContext}

abbrev pub zero_if : Bool → String → String
zero_if true s = append "0" s
zero_if false s = s

-- `format!("{:02}", number)`
unfoldable pub padded : ℕ → String
unfolding print
padded n = zero_if (ltb n 10) (print n)

abbrev pub is_spec : SourceType → ℕ → Row → Bool
is_spec kind n r =
    (SourceType.as_str r.doc.source_type == SourceType.as_str kind)
    && (r.doc.source_id == print n || r.doc.source_id == padded n)

-- The code calls it for these five kinds only.
unfoldable pub spec_prefix : SourceType → String
spec_prefix bip = "BIP"
spec_prefix bolt = "BOLT"
spec_prefix blip = "bLIP"
spec_prefix lud = "LUD"
spec_prefix nut = "NUT"
spec_prefix _ = ""

unfoldable pub spec_context : SourceType → ℕ → Db → Document → DocumentContext
unfolding spec_prefix print url
spec_context kind n db doc = record {
  provenance = [];
  document = doc;
  link = url doc;
  outgoing_refs = filter (λ r. r.from_doc_id == doc.id) db.refs;
  incoming_refs =
      filter
        (λ r.
          option_eq r.to_doc_id (some doc.id)
          || option_eq r.to_external (some (concat (spec_prefix kind ∷ "-" ∷ print n ∷ []))))
        db.refs;
  concepts = map (λ m. m.concept_slug) (filter (λ (m : Mention). m.doc_id == doc.id) db.mentions);
}

unfoldable pub lookup_spec : SourceType → ℕ → Db → Option DocumentContext
unfolding padded print spec_context SourceType.as_str
lookup_spec kind n db = do
  row ← find (is_spec kind n) db.documents
  some (spec_context kind n db row.doc)

unfoldable pub lookup_bip : ℕ → Db → Option DocumentContext
unfolding lookup_spec
lookup_bip n db = lookup_spec bip n db

unfoldable pub lookup_bolt : ℕ → Db → Option DocumentContext
unfolding lookup_spec
lookup_bolt n db = lookup_spec bolt n db

unfoldable pub lookup_blip : ℕ → Db → Option DocumentContext
unfolding lookup_spec
lookup_blip n db = lookup_spec blip n db

unfoldable pub lookup_lud : ℕ → Db → Option DocumentContext
unfolding lookup_spec
lookup_lud n db = lookup_spec lud n db

unfoldable pub lookup_nut : ℕ → Db → Option DocumentContext
unfolding lookup_spec
lookup_nut n db = lookup_spec nut n db

-- ===== src/Store/References.antt =====
-- The references to a record or an external name (bkb-store/src/sqlite.rs: get_references). The rows of
-- the table stand in the order of their ids.
pub mod Laws
use bitcoin_knowledge_base.Base.{
  ℕ, zero, suc, ◌+◌, ◌-◌, ◌*◌, ◌/◌, ◌%◌, ◌^◌, ◌≤◌, ◌<◌, min, max, String, ◌≡◌, refl, sym, ap, ◌∙◌,
  subst, ◌≢◌, ◌↔◌, ◌⊎◌, inl, inr, Bool, true, false, not, ◌&&◌, ◌||◌, Option, none, some, List, [],
  ◌∷◌, ◌++◌, map, append_assoc, append-nil, arith, ◌==◌, eq_iff, eq_refl, ltb, leb, eqb,
  if◌then◌else◌, Bool-cases, Option-cases, eqb_iff, option_eq, option_eq_iff, is_some, unwrap_or,
  or_else, ◌>>=◌, ◌>>◌, guard, >>=-eq-some, guard-eq-some, not-eq-true, some_inj, &&-eq-true,
  ||-eq-true, length, take, any, all, filter, find, last?, All, In, here, there, In-filter,
  In-of_filter, In-append_left, In-append_right, In-of_append, All-In, length-append, find-In,
  In-any, any-In, all-In, In-map, In-of_map, append, concat, char_eq, char_eq_iff, char_eq_refl,
  is_empty, all_chars, any_char, is_ascii_digit, is_ascii_alphanumeric, is_whitespace, strip_prefix,
  starts_with, strip_suffix, split_once, rsplit_once, last_segment, first_segment, replace_first,
  replace, trim_start, trim_end, trim, split_char, split_whitespace, strip_prefix-append,
  strip_prefix_sound,
}
use mathlib.Core.Option
use bitcoin_knowledge_base.Model.RefType
use bitcoin_knowledge_base.Model.Document.{Reference}
use bitcoin_knowledge_base.Store.Tables.{Db, alias_of}
use bitcoin_knowledge_base.Reconcile.Lookup.{canonical_id, group_id}
use bitcoin_knowledge_base.Reconcile.Target.{external_id}
use bitcoin_knowledge_base.Reconcile.View.{Key, same_key, canonical_refs}

-- `COALESCE(a.canonical_id, id)`
unfoldable pub joined_group : Db → String → String
unfolding alias_of
joined_group db id = group_id id (alias_of id db.aliases)

unfoldable pub row_key : Db → Reference → Key
unfolding joined_group RefType.as_str
row_key db r = (
  joined_group db r.from_doc_id,
  or_else (Option.map (joined_group db) r.to_doc_id) r.to_external,
  RefType.as_str r.ref_type,
)

unfoldable pub refers_to : Db → String → Option String → Reference → Bool
unfolding joined_group external_id canonical_id RefType.as_str
refers_to db entity ref_type r =
    let target = unwrap_or (external_id db entity) (canonical_id db entity) in
    (option_eq r.to_external (some entity)
      || option_eq (Option.map (joined_group db) r.to_doc_id) (some target))
    && elim ref_type [ none ↦ true | some kind ↦ RefType.as_str r.ref_type == kind ]

-- `GROUP BY` the key, with the row of the least id
unfoldable pub first_rows : Db → List Key → List Reference → List Reference
unfolding row_key
first_rows db seen [] = []
first_rows db seen (r ∷ rs) = elim (any (same_key (row_key db r)) seen) [
  | true ↦ first_rows db seen rs
  | false ↦ r ∷ first_rows db (row_key db r ∷ seen) rs
]

unfoldable pub get_references : String → Option String → ℕ → Db → List Reference
unfolding refers_to first_rows canonical_refs
get_references entity ref_type limit db =
    canonical_refs db
      (take (min limit 1000) (first_rows db [] (filter (refers_to db entity ref_type) db.refs)))

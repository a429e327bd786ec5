-- ===== src/Store/References/Laws.antt =====
-- Which references are found (bkb-store/src/sqlite.rs: get_references).
use bitcoin_knowledge_base.Base.{
  ℕ, min, String, ◌≡◌, ◌⊎◌, Option, none, some, List, [], unwrap_or, take, filter, In,
}
use mathlib.Core.Option
use bitcoin_knowledge_base.Model.RefType
use bitcoin_knowledge_base.Model.Document.{Reference}
use bitcoin_knowledge_base.Store.Tables.{Db, alias_of}
use bitcoin_knowledge_base.Reconcile.Lookup.{canonical_id, group_id}
use bitcoin_knowledge_base.Reconcile.Target.{external_id}
use bitcoin_knowledge_base.Reconcile.View.{Key, canonical_ref}
use bitcoin_knowledge_base.Store.References.{row_key, refers_to, first_rows}

-- The first row with a row's key.
HasFirst : Db → List Key → List Reference → Reference → Type 0
HasFirst db seen rs r =
    In (row_key db r) seen
    ⊎ ((q : Reference) × In q (first_rows db seen rs) × (row_key db q ≡ row_key db r))

-- The group that is asked for: the one of the record that an external name stands for, or the one of
-- the record with the id.
abbrev pub asked_group : Db → String → String
asked_group db entity = unwrap_or (external_id db entity) (canonical_id db entity)

-- A reference that was asked for: it names the entity, or its target is in the group of the entity;
-- and its kind is the one that was asked for, if there is one.
abbrev pub Refers : Db → String → Option String → Reference → Type 0
Refers db entity ref_type r =
    ((r.to_external ≡ some entity)
      ⊎ ((id : String) × (r.to_doc_id ≡ some id)
          × (group_id id (alias_of id db.aliases) ≡ asked_group db entity)))
    × ((ref_type ≡ none) ⊎ (ref_type ≡ some (RefType.as_str r.ref_type)))

-- A reference that is found stands for one of the table that was asked for.
abbrev pub Asked : Db → String → Option String → Reference → Type 0
Asked db entity ref_type k =
    (r : Reference) × In r db.refs × Refers db entity ref_type r × (canonical_ref db r ≡ k)

-- A reference of the same kind from the same group is among the given ones.
abbrev pub Shown : Db → List Reference → Reference → Type 0
Shown db found r =
    (k : Reference) × In k found
    × (k.from_doc_id ≡ canonical_id db r.from_doc_id)
    × (RefType.as_str k.ref_type ≡ RefType.as_str r.ref_type)

module _ (entity : String) (ref_type : Option String) (limit : ℕ) (db : Db) where
  asked : List Reference
  asked = filter (refers_to db entity ref_type) db.refs

  rows : List Reference
  unfolding asked
  rows = take (min limit 1000) (first_rows db [] asked)

-- ===== src/Reconcile/Bind.antt =====
-- Joining two records into one group (bkb-store/src/reconcile.rs: bind, record_link,
-- invalidate_exact). `none` is an SQL error, which ends the transaction.
pub mod Merge
pub mod Group
pub mod Keeps
pub mod Joins
use bitcoin_knowledge_base.Base.{
  ℕ, zero, suc, ◌+◌, ◌-◌, ◌*◌, ◌/◌, ◌%◌, ◌^◌, ◌≤◌, ◌<◌, min, max, String, ◌≡◌, refl, sym, ap, ◌∙◌,
  subst, ◌≢◌, ◌↔◌, ◌⊎◌, inl, inr, Bool, true, false, not, ◌&&◌, ◌||◌, Option, none, some, List, [],
  ◌∷◌, ◌++◌, map, append_assoc, append-nil, arith, ◌==◌, eq_iff, eq_refl, ltb, leb, eqb,
  if◌then◌else◌, Bool-cases, Option-cases, eqb_iff, option_eq, option_eq_iff, is_some, unwrap_or,
  or_else, ◌>>=◌, ◌>>◌, guard, >>=-eq-some, length, take, any, all, filter, find, last?, All, In,
  here, there, In-filter, In-of_filter, In-append_left, In-append_right, In-of_append, All-In,
  length-append, find-In, append, concat, char_eq, char_eq_iff, char_eq_refl, is_empty, all_chars,
  any_char, is_ascii_digit, is_ascii_alphanumeric, is_whitespace, strip_prefix, starts_with,
  strip_suffix, split_once, rsplit_once, last_segment, first_segment, replace_first, replace,
  trim_start, trim_end, trim, split_char, split_whitespace, strip_prefix-append, strip_prefix_sound,
}
use bitcoin_knowledge_base.Model.SourceType
use bitcoin_knowledge_base.Model.Document.{Document}
use bitcoin_knowledge_base.Store.Tables.{Db, Row, Link, Alias, alias_of, upsert_alias}
use bitcoin_knowledge_base.Reconcile.Lookup.{raw, canonical_id, thread}

-- `split_once('_').map(|v| v.1)` of the type's text: what the record is, whatever its forge.
unfoldable pub kind_suffix : Document → Option String
unfolding SourceType.as_str split_once
kind_suffix doc = elim (split_once (SourceType.as_str doc.source_type) "_") [
  | none ↦ none
  | some (forge, kind) ↦ some kind
]

-- `id IN (SELECT doc_id FROM document_aliases WHERE canonical_id IN (…))`
unfoldable pub in_group : (String → Bool) → String → List Alias → Bool
in_group wanted id rows = any (λ r. (r.doc_id == id) && wanted r.canonical_id) rows

-- The ids of the records that are `a`, `b` or in one of the groups `ga` and `gb`.
unfoldable pub member_ids : String → String → String → String → Db → List String
unfolding in_group
member_ids a b ga gb db =
    map (λ r. r.doc.id)
      (filter
        (λ r.
          (r.doc.id == a || r.doc.id == b)
          || in_group (λ g. g == ga || g == gb) r.doc.id db.aliases)
        db.documents)

-- The loop over `members` with the set `hosts`: no two threads of one host.
unfoldable pub distinct_hosts : Db → List (Option String) → List String → Bool
distinct_hosts db hosts [] = true
distinct_hosts db hosts (m ∷ ms) = elim (raw db m) [
  | none ↦ distinct_hosts db hosts ms
  | some doc ↦
      let seen = distinct_hosts db (doc.source_repo ∷ hosts) ms in
      let unseen = distinct_hosts db hosts ms in
      if thread doc then not (any (option_eq doc.source_repo) hosts) && seen else unseen
]

-- `INSERT INTO document_aliases`, with its three foreign keys
unfoldable pub put_alias : Alias → Db → Option Db
unfolding upsert_alias
put_alias row db =
    if is_some (raw db row.doc_id)
      && is_some (raw db row.canonical_id)
      && is_some (raw db row.origin_id)
    then some (record db { aliases = upsert_alias row db.aliases })
    else none

unfoldable pub put_members : String → String → String → List String → Db → Option Db
put_members canonical origin evidence [] db = some db
put_members canonical origin evidence (m ∷ ms) db = do
  db' ←
      put_alias
        (record { doc_id = m; canonical_id = canonical; origin_id = origin; evidence = evidence })
        db
  put_members canonical origin evidence ms db'

-- The id that stands for the joined group: the Forgejo thread, or the origin of a comment.
unfoldable pub primary : Document → String → String → String → String
unfolding SourceType.as_str starts_with
primary a_doc a b origin =
    if thread a_doc
    then (if starts_with (SourceType.as_str a_doc.source_type) "forgejo_" then a else b)
    else origin

unfoldable pub bind_docs : Db → Document → Document → String → String → String → String → Option Db
unfolding kind_suffix member_ids distinct_hosts put_members primary
bind_docs db a_doc b_doc a b origin evidence =
    let ga = canonical_id db a in
    let gb = canonical_id db b in
    let members = member_ids a b ga gb db in
    let canonical = primary a_doc a b origin in
    if not (option_eq (kind_suffix a_doc) (kind_suffix b_doc))
    then some db
    else if ga == gb
    then some db
    else if not (distinct_hosts db [] members)
    then some db
    else if not (any (λ id. id == canonical) members) || not (is_some (raw db origin))
    then some db
    else put_members canonical origin evidence members db

unfoldable pub bind : Db → String → String → String → String → Option Db
unfolding bind_docs
bind db a b origin evidence = elim (raw db a) [
  | none ↦ some db
  | some a_doc ↦ elim (raw db b) [
    | none ↦ some db
    | some b_doc ↦ bind_docs db a_doc b_doc a b origin evidence
  ]
]

abbrev pub same_link : Link → Link → Bool
same_link l k = (l.doc_id == k.doc_id) && (l.target_id == k.target_id)

-- `INSERT OR IGNORE INTO document_links`: a link that is there stays, and a record that is not
-- stored is a foreign key error, which is not ignored.
unfoldable pub put_link : Link → Db → Option Db
put_link l db =
    if any (same_link l) db.links
    then some db
    else if is_some (raw db l.doc_id)
    then some (record db { links = db.links ++ l ∷ [] })
    else none

unfoldable pub record_link : Db → String → String → String → String → Option Db
unfolding put_link bind
record_link db doc target origin evidence = if doc == target then some db else do
  db' ←
      put_link
        (record { doc_id = doc; target_id = target; origin_id = origin; evidence = evidence }) db
  bind db' doc target origin evidence

-- `doc_id IN (SELECT doc_id FROM document_aliases WHERE canonical_id = group)`
abbrev link_in_group : String → List Alias → Link → Bool
link_in_group group rows l =
    in_group (λ g. g == group) l.doc_id rows || in_group (λ g. g == group) l.target_id rows

unfoldable pub invalidate_exact : Db → String → Db
unfolding in_group
invalidate_exact db id =
    let group = canonical_id db id in
    record db {
      links =
          filter (λ l. not ((l.evidence == "exact-import:v1") && link_in_group group db.aliases l))
            db.links;
      aliases =
          filter (λ r. not ((r.canonical_id == group) && (r.evidence == "exact-import:v1")))
            db.aliases;
    }

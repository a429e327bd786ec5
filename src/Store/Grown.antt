-- ===== src/Store/Grown.antt =====
-- What writing records leaves of the groups (bkb-store/src/sqlite.rs: write_document).
pub mod Writes
use bitcoin_knowledge_base.Base.{
  ℕ, zero, suc, ◌+◌, ◌-◌, ◌*◌, ◌/◌, ◌%◌, ◌^◌, ◌≤◌, ◌<◌, min, max, String, ◌≡◌, refl, sym, ap, ◌∙◌,
  subst, ◌≢◌, ◌↔◌, ◌⊎◌, inl, inr, Bool, true, false, not, ◌&&◌, ◌||◌, Option, none, some, List, [],
  ◌∷◌, ◌++◌, map, append_assoc, append-nil, arith, ◌==◌, eq_iff, eq_refl, ltb, leb, eqb,
  if◌then◌else◌, Bool-cases, Option-cases, eqb_iff, option_eq, option_eq_iff, is_some, unwrap_or,
  or_else, ◌>>=◌, ◌>>◌, guard, >>=-eq-some, guard-eq-some, not-eq-true, some_inj, &&-eq-true,
  ||-eq-true, length, take, any, all, filter, find, last?, All, In, here, there, In-filter,
  In-of_filter, In-append_left, In-append_right, In-of_append, All-In, length-append, find-In,
  In-any, any-In, all-In, In-map, In-of_map, append, concat, char_eq, char_eq_iff, char_eq_refl,
  is_empty, all_chars, any_char, is_ascii_digit, is_ascii_alphanumeric, is_whitespace, strip_prefix,
  starts_with, strip_suffix, split_once, rsplit_once, last_segment, first_segment, replace_first,
  replace, trim_start, trim_end, trim, split_char, split_whitespace, strip_prefix-append,
  strip_prefix_sound,
}
use mathlib.Core.Option
use bitcoin_knowledge_base.Model.Document.{Document}
use bitcoin_knowledge_base.Store.Tables.{Db, Row, Alias, find_doc, alias_of}
use bitcoin_knowledge_base.Store.Writes.{
  put_document, updated, update_rows, next_rowid, log_change, clashes, write_document,
  repair_previous,
}
use bitcoin_knowledge_base.Reconcile.Lookup.{
  raw, actual_id, canonical_id, canonical_id_of_raw, group_id, thread, find_doc-id,
}
use bitcoin_knowledge_base.Reconcile.Target.{repair_permalink_url, permalink_repo}
use bitcoin_knowledge_base.Reconcile.Bind.Merge.{IsStored, IsStored-of_raw}
use bitcoin_knowledge_base.Reconcile.Bind.Group.{IsGrouped, IsOneHost}

-- The alias table describes groups, with one thread of a host in each.
pub record IsConsistent (db : Db) : Type 0 where
  pub grouped : IsGrouped db
  pub one_host : IsOneHost db

-- `db'` has the aliases of `db`, its records and perhaps more; a record that was there is a thread
-- of the same repository or no thread, as before.
pub record IsGrown (db db' : Db) : Type 0 where
  pub aliases : db'.aliases ≡ db.aliases
  pub stored : (j : String) → IsStored db j → IsStored db' j
  pub kept :
      (j : String) (d d' : Document)
      → raw db j ≡ some d
      → raw db' j ≡ some d'
      → (thread d ≡ thread d') × (d.source_repo ≡ d'.source_repo)

pub IsGrown-refl : (db : Db) → IsGrown db db
IsGrown-refl db = record {
  aliases = refl;
  stored = λ j s. s;
  kept = λ j d d' r r'.
      let same : d ≡ d' = some_inj (sym r ∙ r') in (ap thread same, ap (λ e. e.source_repo) same);
}

module _ {db db' : Db} (g : IsGrown db db') (c : IsConsistent db) where
  -- A record that was not stored has no row.
  fresh_alone : (x : String) → raw db x ≡ none → alias_of x db.aliases ≡ none
  fresh_alone x r = elim (Option-cases (alias_of x db.aliases)) [
    | inl alone ↦ alone
    | inr (row, found) ↦ let (s, _) = c.grouped.stored x row found in cc (rw r at s)
  ]

  group_after :
      (x : String) (d : Document)
      → raw db' x ≡ some d
      → canonical_id db' x ≡ group_id x (alias_of x db.aliases)
  group_after x d r = canonical_id_of_raw db' x (IsStored-of_raw db' x d r) ∙ rw g.aliases

  -- It shares its group with no other record.
  fresh_apart :
      (x y : String)
      → raw db x ≡ none
      → group_id x (alias_of x db.aliases) ≡ group_id y (alias_of y db.aliases)
      → x ≡ y
  fresh_apart x y r e = elim (Option-cases (alias_of y db.aliases)) [
    | inl alone ↦ sym (rw (fresh_alone x r)) ∙ e ∙ rw alone
    | inr (row, found) ↦
        let named : row.canonical_id ≡ x = sym (rw found) ∙ sym e ∙ rw (fresh_alone x r) in
        cc (fresh_alone x r, rw named at (c.grouped.rooted y row found))
  ]

  pub IsConsistent-grown : IsConsistent db'
  IsConsistent-grown = record {
    grouped = record {
      keyed = rw g.aliases c.grouped.keyed;
      rooted = λ j r h.
          let old : alias_of j db.aliases ≡ some r = sym (ap (alias_of j) g.aliases) ∙ h in
          ap (alias_of r.canonical_id) g.aliases ∙ c.grouped.rooted j r old;
      stored = λ j r h.
          let old : alias_of j db.aliases ≡ some r = sym (ap (alias_of j) g.aliases) ∙ h in
          let (s, t) = c.grouped.stored j r old in (g.stored j s, g.stored r.origin_id t);
    };
    one_host = λ x y dx dy rx ry tx ty e same.
        let same' = sym (group_after x dx rx) ∙ same ∙ group_after y dy ry in
        elim (Option-cases (raw db x)) [
          | inl nx ↦ fresh_apart x y nx same'
          | inr (ox, sx) ↦ elim (Option-cases (raw db y)) [
            | inl ny ↦ sym (fresh_apart y x ny (sym same'))
            | inr (oy, sy) ↦
                let (kx, hx) = g.kept x ox dx sx rx in
                let (ky, hy) = g.kept y oy dy sy ry in
                c.one_host x y ox oy sx sy (kx ∙ tx) (ky ∙ ty) (hx ∙ e ∙ sym hy) (
                  canonical_id_of_raw db x (IsStored-of_raw db x ox sx)
                  ∙ same'
                  ∙ sym (canonical_id_of_raw db y (IsStored-of_raw db y oy sy)))
          ]
        ];
  }

-- An update keeps every id.
find_doc-update_rows :
    (j : String) (doc : Document) (seq : ℕ) (rows : List Row)
    → find_doc j (update_rows doc seq rows)
      ≡ Option.map (λ d. if d.id == doc.id then updated doc seq d else d) (find_doc j rows)
unfolding find_doc update_rows updated
find_doc-update_rows j doc seq [] = refl
find_doc-update_rows j doc seq (r ∷ rs) = elim (Bool-cases (r.doc.id == doc.id)) [
  | inl t ↦ elim (Bool-cases (r.doc.id == j)) [
    | inl u ↦ rw t (rw u (rw t refl))
    | inr u ↦ rw t (rw u (find_doc-update_rows j doc seq rs))
  ]
  | inr f ↦ elim (Bool-cases (r.doc.id == j)) [
    | inl u ↦ rw f (rw u (rw f refl))
    | inr u ↦ rw f (rw u (find_doc-update_rows j doc seq rs))
  ]
]

pub find_doc-append :
    (j : String) (rows : List Row) (r : Row)
    → find_doc j (rows ++ r ∷ [])
      ≡ or_else (find_doc j rows) (if r.doc.id == j then some r.doc else none)
unfolding find_doc
find_doc-append j [] r = refl
find_doc-append j (x ∷ xs) r = elim (Bool-cases (x.doc.id == j)) [
  | inl t ↦ rw t refl
  | inr f ↦ rw f (find_doc-append j xs r)
]

pub raw_update :
    (db db' : Db) (doc : Document)
    → db'.documents ≡ update_rows doc db.next_seq db.documents
    → (j : String)
    → raw db' j
      ≡ Option.map (λ d. if d.id == doc.id then updated doc db.next_seq d else d) (raw db j)
unfolding raw
raw_update db db' doc e j = ap (find_doc j) e ∙ find_doc-update_rows j doc db.next_seq db.documents

thread-updated : (doc d : Document) (seq : ℕ) → thread (updated doc seq d) ≡ thread d
unfolding thread updated
thread-updated doc d seq = refl

repo_updated : (doc d : Document) (seq : ℕ) → (updated doc seq d).source_repo ≡ d.source_repo
unfolding updated
repo_updated doc d seq = refl

pub update-IsGrown :
    (db db' : Db) (doc : Document)
    → db'.aliases ≡ db.aliases
    → db'.documents ≡ update_rows doc db.next_seq db.documents
    → IsGrown db db'
update-IsGrown db db' doc same e = record {
  aliases = same;
  stored = λ j s. elim (Option-cases (raw db j)) [
    | inl n ↦ cc (rw n at s)
    | inr (d, r) ↦ rw (raw_update db db' doc e j) (rw r refl)
  ];
  kept = λ j d d' r r'.
      let after : d' ≡ (if d.id == doc.id then updated doc db.next_seq d else d) =
        some_inj (sym r' ∙ raw_update db db' doc e j ∙ rw r refl) in
      elim (Bool-cases (d.id == doc.id)) [
        | inl t ↦
            let is : d' ≡ updated doc db.next_seq d = after ∙ rw t refl in
            (
              sym (ap thread is ∙ thread-updated doc d db.next_seq),
              sym (ap (λ x. x.source_repo) is ∙ repo_updated doc d db.next_seq),
            )
        | inr f ↦
            let is : d' ≡ d = after ∙ rw f refl in
            (sym (ap thread is), sym (ap (λ x. x.source_repo) is))
      ];
}

pub raw_append :
    (db db' : Db) (row : Row)
    → db'.documents ≡ db.documents ++ row ∷ []
    → (j : String) → raw db' j ≡ or_else (raw db j) (if row.doc.id == j then some row.doc else none)
unfolding raw
raw_append db db' row e j = ap (find_doc j) e ∙ find_doc-append j db.documents row

pub append-IsGrown :
    (db db' : Db) (row : Row)
    → db'.aliases ≡ db.aliases
    → db'.documents ≡ db.documents ++ row ∷ []
    → IsGrown db db'
append-IsGrown db db' row same e = record {
  aliases = same;
  stored = λ j s. elim (Option-cases (raw db j)) [
    | inl n ↦ cc (rw n at s)
    | inr (d, r) ↦ rw (raw_append db db' row e j) (rw r refl)
  ];
  kept = λ j d d' r r'.
      let is : d' ≡ d = some_inj (sym r' ∙ raw_append db db' row e j ∙ rw r refl) in
      (sym (ap thread is), sym (ap (λ x. x.source_repo) is));
}

pub append-IsStored :
    (db db' : Db) (row : Row) → db'.documents ≡ db.documents ++ row ∷ [] → IsStored db' row.doc.id
append-IsStored db db' row e = elim (Option-cases (raw db row.doc.id)) [
  | inl n ↦ rw (raw_append db db' row e row.doc.id) (rw n (rw (eq_refl row.doc.id) refl))
  | inr (d, r) ↦ rw (raw_append db db' row e row.doc.id) (rw r refl)
]

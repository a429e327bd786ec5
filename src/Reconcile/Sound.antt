-- ===== src/Reconcile/Sound.antt =====
-- What reconciliation keeps: the stored records and their enrichment, and the shape of the groups
-- (bkb-store/src/reconcile.rs: reconcile and all that it calls).
use bitcoin_knowledge_base.Base.{
  String, ◌≡◌, refl, sym, ap, ◌∙◌, ◌⊎◌, inl, inr, Bool, true, false, not, ◌&&◌, Option, none, some,
  List, [], ◌∷◌, ◌++◌, map, ◌==◌, Bool-cases, Option-cases, ◌>>=◌, some_inj, any, filter,
}
use bitcoin_knowledge_base.Model.Document.{Reference}
use bitcoin_knowledge_base.Store.Tables.{
  Db, Link, Alias, alias_of, alias_of-filter, keep_if, IsKeyed-filter,
}
use bitcoin_knowledge_base.Reconcile.Lookup.{
  raw, actual_id, canonical_id, canonical_id_of_raw, group_id,
}
use bitcoin_knowledge_base.Reconcile.Bind.{bind, same_link, put_link, record_link, invalidate_exact}
use bitcoin_knowledge_base.Reconcile.Bind.Merge.{bind-Outcome, IsStored, IsStored-of_raw}
use bitcoin_knowledge_base.Reconcile.Bind.Group.{IsGrouped, IsOneHost}
use bitcoin_knowledge_base.Reconcile.Bind.Keeps.{bind-IsGrouped, bind-IsOneHost}

-- The records that references are from.
abbrev pub senders : List Reference → List String
senders refs = map (λ r. r.from_doc_id) refs

-- `db` comes from `old` by reconciliation: the records, their tags, the change log and the sync
-- states are those of `old`, and the references are from the same records, one for one; the alias
-- table describes groups, with one thread of a host in each.
pub record IsSound (old db : Db) : Type 0 where
  pub documents : db.documents ≡ old.documents
  pub mentions : db.mentions ≡ old.mentions
  pub change_log : db.change_log ≡ old.change_log
  pub sync_states : db.sync_states ≡ old.sync_states
  pub senders : senders db.refs ≡ senders old.refs
  pub grouped : IsGrouped db
  pub one_host : IsOneHost db

-- An operation that succeeds and leaves a database that comes from `old` by reconciliation.
abbrev pub Keeps : Db → Option Db → Type 0
Keeps old none = ⊥
Keeps old (some db) = IsSound old db

pub Keeps-bind :
    (old : Db) (m : Option Db) (f : Db → Option Db)
    → Keeps old m
    → ((db : Db) → IsSound old db → Keeps old (f db))
    → Keeps old (m >>= f)
Keeps-bind old none f km kf = absurd km
Keeps-bind old (some db) f km kf = kf db km

-- Another table of links and other references change nothing of this.
relinked :
    (old db : Db) (links : List Link) → IsSound old db → IsSound old (record db { links = links })
unfolding raw canonical_id actual_id
relinked old db links s = record {
  documents = s.documents;
  mentions = s.mentions;
  change_log = s.change_log;
  sync_states = s.sync_states;
  senders = s.senders;
  grouped = record {
    keyed = s.grouped.keyed;
    rooted = s.grouped.rooted;
    stored = s.grouped.stored;
  };
  one_host = s.one_host;
}

pub referred :
    (old db : Db) (refs : List Reference)
    → senders refs ≡ senders db.refs
    → IsSound old db
    → IsSound old (record db { refs = refs })
unfolding raw canonical_id actual_id
referred old db refs same s = record {
  documents = s.documents;
  mentions = s.mentions;
  change_log = s.change_log;
  sync_states = s.sync_states;
  senders = same ∙ s.senders;
  grouped = record {
    keyed = s.grouped.keyed;
    rooted = s.grouped.rooted;
    stored = s.grouped.stored;
  };
  one_host = s.one_host;
}

pub bind-Keeps :
    (old db : Db) (a b origin evidence : String)
    → IsSound old db
    → Keeps old (bind db a b origin evidence)
bind-Keeps old db a b origin evidence s = elim (bind-Outcome db a b origin evidence) [
  | inl e ↦ rw e s
  | inr (db', e, m) ↦ rw e (record {
    documents = rw m.after s.documents;
    mentions = rw m.after s.mentions;
    change_log = rw m.after s.change_log;
    sync_states = rw m.after s.sync_states;
    senders = rw m.after s.senders;
    grouped = bind-IsGrouped db db' a b origin evidence s.grouped e;
    one_host = bind-IsOneHost db db' a b origin evidence s.grouped s.one_host e;
  })
]

-- A record that is stored before is stored now.
pub still-IsStored : (old db : Db) (id : String) → IsSound old db → IsStored old id → IsStored db id
unfolding raw
still-IsStored old db id s h = rw s.documents h

put_link-Keeps :
    (old db : Db) (l : Link) → IsStored old l.doc_id → IsSound old db → Keeps old (put_link l db)
unfolding put_link
put_link-Keeps old db l given s = elim (Bool-cases (any (same_link l) db.links)) [
  | inl t ↦ rw (t, put_link) s
  | inr f ↦
      rw (f, still-IsStored old db l.doc_id s given, put_link)
        (relinked old db (db.links ++ l ∷ []) s)
]

pub record_link-Keeps :
    (old db : Db) (doc target origin evidence : String)
    → IsStored old doc
    → IsSound old db
    → Keeps old (record_link db doc target origin evidence)
unfolding record_link
record_link-Keeps old db doc target origin evidence given s =
    let l : Link = record {
      doc_id = doc;
      target_id = target;
      origin_id = origin;
      evidence = evidence;
    } in
    elim (Bool-cases (doc == target)) [
      | inl t ↦ rw (t, record_link) s
      | inr f ↦
          rw (f, record_link)
            (Keeps-bind old (put_link l db) _ (put_link-Keeps old db l given s)
              (λ d k. bind-Keeps old d doc target origin evidence k))
    ]

-- Rows are taken out of the alias table by their group and evidence alone, and so by whole groups.
module _ (db : Db) (p : Alias → Bool) (g : IsGrouped db)
    (whole : (r : Alias) (k : String) → p (record r { doc_id = k }) ≡ p r) where
  abbrev cut : Db
  cut = record db { aliases = filter p db.aliases }

  cut-alias_of : (j : String) → alias_of j cut.aliases ≡ keep_if p (alias_of j db.aliases)
  cut-alias_of j = alias_of-filter p j db.aliases g.keyed

  kept_row :
      (j : String) (r : Alias)
      → alias_of j cut.aliases ≡ some r
      → (alias_of j db.aliases ≡ some r) × (p r ≡ true)
  kept_row j r h = elim (Option-cases (alias_of j db.aliases)) [
    | inl e ↦ absurd (cc (cut-alias_of j, ap (keep_if p) e, h))
    | inr (q, e) ↦
        let kept : keep_if p (some q) ≡ some r =
          sym (ap (keep_if p) e) ∙ sym (cut-alias_of j) ∙ h in
        elim (Bool-cases (p q)) [
          | inl t ↦
              let same : q ≡ r = some_inj (rw t at kept) in (rw e (ap some same), rw (← same) t)
          | inr f ↦ absurd (cc (rw f at kept))
        ]
  ]

  cut-rooted :
      (j : String) (r : Alias)
      → alias_of j cut.aliases ≡ some r
      → alias_of r.canonical_id cut.aliases ≡ some (record r { doc_id = r.canonical_id })
  cut-rooted j r h =
      let (old, t) = kept_row j r h in
      cut-alias_of r.canonical_id
      ∙ ap (keep_if p) (g.rooted j r old)
      ∙ rw (whole r r.canonical_id) (rw t refl)

  pub cut-IsGrouped : IsGrouped cut
  unfolding raw
  cut-IsGrouped = record {
    keyed = IsKeyed-filter p db.aliases g.keyed;
    rooted = cut-rooted;
    stored = λ j r h. g.stored j r (kept_row j r h).0;
  }

  -- A record that was taken out of its group has a group of its own.
  cut-apart :
      (x y : String) (r : Alias)
      → alias_of x db.aliases ≡ some r
      → p r ≡ false
      → group_id y (alias_of y cut.aliases) ≡ x
      → y ≡ x
  cut-apart x y r found out e = elim (Option-cases (alias_of y cut.aliases)) [
    | inl alone ↦ cc (ap (group_id y) alone, e)
    | inr (q, kept) ↦
        let (old, t) = kept_row y q kept in
        let root : q.canonical_id ≡ x = sym (ap (group_id y) kept) ∙ e in
        let row : some r ≡ some (record q { doc_id = q.canonical_id }) =
          sym found ∙ ap (λ k. alias_of k db.aliases) (sym root) ∙ g.rooted y q old in
        absurd (cc (ap p (some_inj row), whole q q.canonical_id, t, out))
  ]

  keep_if-true : (r : Alias) → p r ≡ true → keep_if p (some r) ≡ some r
  keep_if-true r t = rw t

  keep_if-false : (r : Alias) → p r ≡ false → keep_if p (some r) ≡ none
  keep_if-false r f = rw f

  -- The group of a record before and after.
  group_cases :
      (x : String)
      → (group_id x (alias_of x cut.aliases) ≡ group_id x (alias_of x db.aliases))
        ⊎ ((r : Alias) × (alias_of x db.aliases ≡ some r)
            × (p r ≡ false)
            × (group_id x (alias_of x cut.aliases) ≡ x))
  group_cases x = elim (Option-cases (alias_of x db.aliases)) [
    | inl e ↦ inl (ap (group_id x) (cut-alias_of x ∙ ap (keep_if p) e ∙ sym e))
    | inr (r, e) ↦ elim (Bool-cases (p r)) [
      | inl t ↦
          inl (ap (group_id x) (cut-alias_of x ∙ (ap (keep_if p) e ∙ (keep_if-true r t ∙ sym e))))
      | inr f ↦
          inr (r, e, f, ap (group_id x) (cut-alias_of x ∙ ap (keep_if p) e ∙ keep_if-false r f))
    ]
  ]

  cut-one :
      (x y : String)
      → group_id x (alias_of x cut.aliases) ≡ group_id y (alias_of y cut.aliases)
      → (group_id x (alias_of x db.aliases) ≡ group_id y (alias_of y db.aliases)) ⊎ (x ≡ y)
  cut-one x y e = elim (group_cases x) [
    | inr (r, found, out, own) ↦ inr (sym (cut-apart x y r found out (sym e ∙ own)))
    | inl same ↦ elim (group_cases y) [
      | inr (r, found, out, own) ↦ inr (cut-apart y x r found out (e ∙ own))
      | inl same' ↦ inl (sym same ∙ e ∙ same')
    ]
  ]

  pub cut-IsOneHost : IsOneHost db → IsOneHost cut
  cut-IsOneHost one x y dx dy rx ry tx ty e c =
      let rx' : raw db x ≡ some dx = unfold raw in rx in
      let ry' : raw db y ≡ some dy = unfold raw in ry in
      let sx = IsStored-of_raw db x dx rx' in
      let sy = IsStored-of_raw db y dy ry' in
      let cx = canonical_id_of_raw cut x (IsStored-of_raw cut x dx rx) in
      let cy = canonical_id_of_raw cut y (IsStored-of_raw cut y dy ry) in
      elim (cut-one x y (sym cx ∙ c ∙ cy)) [
        | inr same ↦ same
        | inl together ↦
            one x y dx dy rx' ry' tx ty e
              (canonical_id_of_raw db x sx ∙ together ∙ sym (canonical_id_of_raw db y sy))
      ]

pub invalidate_exact-IsSound :
    (old db : Db) (id : String) → IsSound old db → IsSound old (invalidate_exact db id)
unfolding invalidate_exact
invalidate_exact-IsSound old db id s =
    let keep : Alias → Bool =
      λ r. not ((r.canonical_id == canonical_id db id) && (r.evidence == "exact-import:v1")) in
    relinked old (record db { aliases = filter keep db.aliases }) _
      (record {
        documents = s.documents;
        mentions = s.mentions;
        change_log = s.change_log;
        sync_states = s.sync_states;
        senders = s.senders;
        grouped = cut-IsGrouped db keep s.grouped (λ r k. refl);
        one_host = cut-IsOneHost db keep s.grouped (λ r k. refl) s.one_host;
      })

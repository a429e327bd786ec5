-- ===== src/Ingest/StorePage.antt =====
-- A fetched page on its way into the store (bkb-ingest/src/queue.rs: store_page). What enrichment
-- finds in a document is a parameter.
pub mod Laws
use bitcoin_knowledge_base.Base.{
  ℕ, zero, suc, ◌+◌, ◌-◌, ◌*◌, ◌/◌, ◌%◌, ◌^◌, ◌≤◌, ◌<◌, min, max, String, ◌≡◌, refl, sym, ap, ◌∙◌,
  subst, ◌≢◌, ◌↔◌, ◌⊎◌, inl, inr, Bool, true, false, not, ◌&&◌, ◌||◌, Option, none, some, List, [],
  ◌∷◌, ◌++◌, map, append_assoc, append-nil, arith, ◌==◌, eq_iff, eq_refl, ltb, leb, eqb,
  if◌then◌else◌, Bool-cases, Option-cases, eqb_iff, option_eq, option_eq_iff, is_some, unwrap_or,
  or_else, ◌>>=◌, ◌>>◌, guard, >>=-eq-some, guard-eq-some, not-eq-true, some_inj, &&-eq-true,
  ||-eq-true, length, take, any, all, filter, find, last?, All, In, here, there, In-filter,
  In-of_filter, In-append_left, In-append_right, In-of_append, All-In, length-append, find-In,
  In-any, any-In, all-In, In-map, In-of_map, append, concat, char_eq, char_eq_iff, char_eq_refl,
  is_empty, all_chars, any_char, is_ascii_digit, is_ascii_alphanumeric, is_whitespace, strip_prefix,
  starts_with, strip_suffix, split_once, rsplit_once, last_segment, first_segment, replace_first,
  replace, trim_start, trim_end, trim, split_char, split_whitespace, strip_prefix-append,
  strip_prefix_sound,
}
use mathlib.Core.Option
use bitcoin_knowledge_base.Model.RefType
use bitcoin_knowledge_base.Model.RefType.{RefType}
use bitcoin_knowledge_base.Model.SyncStatus.{ok}
use bitcoin_knowledge_base.Model.Document.{Document, Reference, SyncState}
use bitcoin_knowledge_base.Store.Tables.{Db, Mention}
use bitcoin_knowledge_base.Store.Writes.{
  write_references, upsert_mentions, write_sync_state, get_sync_state,
}
use bitcoin_knowledge_base.Store.Pages.{
  retained, write_page, fresh_refs, fresh_mentions, commit_page, reconcile_page, add_evidence,
  parent_refs, tagged,
}
use bitcoin_knowledge_base.Store.Pages.Keeps.{get_sync_state-upsert}
use bitcoin_knowledge_base.Reconcile.Observe.{reconcile}

pub record SyncPage : Type 0 where
  pub checkpoint : Option String
  pub documents : List Document
  pub references : List Reference
  pub next_cursor : Option String

unfoldable pub page_cursor : SyncPage → Option String → Option String
page_cursor page previous = or_else (or_else page.next_cursor page.checkpoint) previous

unfoldable pub page_state : String → SyncPage → Option String → ℕ → SyncState
unfolding page_cursor first_segment
page_state source_id page previous now = record {
  source_id = source_id;
  source_type = first_segment source_id ":";
  source_repo = none;
  last_cursor = page_cursor page previous;
  last_synced_at = some now;
  next_run_at = none;
  status = ok;
  error_message = none;
  retry_count = 0;
  items_found = length page.documents;
}

-- The adapters' references, less those from the records of forges, which enrichment finds anew.
unfoldable pub adapter_refs : List Reference → List Reference
unfolding starts_with
adapter_refs refs =
    filter
      (λ r. not (starts_with r.from_doc_id "github_") && not (starts_with r.from_doc_id "forgejo_"))
      refs

unfoldable pub same_ref : Reference → Reference → Bool
same_ref r k =
    (r.from_doc_id == k.from_doc_id)
    && (option_eq r.to_doc_id k.to_doc_id
        && (option_eq r.to_external k.to_external
            && (RefType.as_str r.ref_type == RefType.as_str k.ref_type)))

unfoldable pub push_new : List Reference → List Reference → List Reference
unfolding same_ref
push_new refs [] = refs
push_new refs (r ∷ rs) =
    if any (λ k. same_ref k r) refs then push_new refs rs else push_new (refs ++ r ∷ []) rs

module _ (enrich : Document → List Reference × List Mention) where
  unfoldable pub page_refs : List Reference → List Document → List Reference
  unfolding push_new parent_refs
  page_refs refs [] = refs
  page_refs refs (doc ∷ docs) =
      let found = if is_some doc.body then (enrich doc).0 else [] in
      page_refs (push_new refs found ++ parent_refs doc) docs

  unfoldable pub page_mentions : List Document → List Mention
  unfolding tagged
  page_mentions [] = []
  page_mentions (doc ∷ docs) =
      let rest = page_mentions docs in
      if is_some doc.body then tagged doc.id (enrich doc).1 ++ rest else rest

  -- `none` is an error, after which the store is as before.
  unfoldable pub store_page :
      (String → Bool) → String → Option String → SyncPage → ℕ → Db → Option (Db × Option String)
  unfolding page_state adapter_refs page_refs page_mentions page_cursor
  store_page valid_date source_id previous page now db =
      let state = page_state source_id page previous now in
      if source_id == "reconcile:v1"
      then (do
        db' ← reconcile_page valid_date enrich (map (λ d. d.id) page.documents) state db
        some (db', page_cursor page previous))
      else (do
        db' ←
            commit_page valid_date page.documents
              (page_refs (adapter_refs page.references) page.documents)
              (page_mentions page.documents) state db
        some (db', page_cursor page previous))

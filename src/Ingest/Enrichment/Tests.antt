-- ===== src/Ingest/Enrichment/Tests.antt =====
-- A commit that is enriched (bkb-ingest/src/enrichment.rs).
use bitcoin_knowledge_base.Base.{
  String, ◌≡◌, refl, Bool, true, none, some, List, [], ◌∷◌, is_some, All, In, split_once,
}
use bitcoin_knowledge_base.Model.RefType.{mentions_issue}
use bitcoin_knowledge_base.Store.Tables.{has_slug}
use bitcoin_knowledge_base.Model.Document.{Document, Reference}
use bitcoin_knowledge_base.Model.Concepts.Network.{vocabulary}
use bitcoin_knowledge_base.Store.Tables.{Db, find_doc}
use bitcoin_knowledge_base.Store.Pages.{replace_enrichment}
use bitcoin_knowledge_base.Store.Grown.{IsConsistent-grown}
use bitcoin_knowledge_base.Store.Grown.Writes.{same-IsGrown}
use bitcoin_knowledge_base.Store.Tests.{
  any_date, stored_commit, commit_doc, stored_commit-IsConsistent, stored_commit-IsKeyedRows,
  commit-IsStored,
}
use bitcoin_knowledge_base.Store.Valid.{IsValid}
use bitcoin_knowledge_base.Reconcile.Lookup.{raw}
use bitcoin_knowledge_base.Ingest.Enrichment.{
  has_slug, seed_concepts, tag_concepts, tags_among, enrich_document, mentions_of,
}
use bitcoin_knowledge_base.Ingest.Enrichment.Laws.{seed_concepts_idem, replace_enrichment-enrich}

abbrev contained : String → String → Bool
contained alias body = is_some (split_once body alias)

abbrev own_mention : Document → List Reference
own_mention doc =
    record {
      ref_id = none;
      from_doc_id = doc.id;
      to_doc_id = none;
      ref_type = mentions_issue;
      to_external = some "bitcoin/bitcoin#5";
      context = none;
    }
    ∷ []

taproot_tags :
    tag_concepts contained "a schnorr key, not a psbt" ≡ ("taproot", 100) ∷ ("psbt", 100) ∷ []
unfolding tag_concepts tags_among split_once
taproot_tags = refl

seed_concepts_idem_example :
    (seed_concepts (seed_concepts stored_commit) ≡ seed_concepts stored_commit)
    × (All (λ c. has_slug c.slug (seed_concepts stored_commit).concepts ≡ true) vocabulary
        × All (λ r. In r (seed_concepts stored_commit).concepts) stored_commit.concepts)
seed_concepts_idem_example = seed_concepts_idem stored_commit

abbrev seeded : Db
seeded = seed_concepts stored_commit

seeded-IsValid : IsValid seeded
unfolding seed_concepts raw
seeded-IsValid = record {
  consistent =
      IsConsistent-grown (same-IsGrown stored_commit seeded refl refl) stored_commit-IsConsistent;
  referred = record {
    keyed = stored_commit-IsKeyedRows;
    refs = tt;
    mentions = (commit-IsStored, tt);
  };
}

commit_found : raw seeded (commit_doc (some 1)).id ≡ some (commit_doc (some 1))
unfolding seed_concepts raw find_doc
commit_found = refl

replace_enrichment-enrich_example :
    (db' : Db) × (replace_enrichment any_date
        (commit_doc (some 1)).id
        (enrich_document contained own_mention any_date (commit_doc (some 1))).0
        (mentions_of
          (commit_doc (some 1)).id
          (enrich_document contained own_mention any_date (commit_doc (some 1))).1)
        seeded
      ≡ some db')
    × IsValid db'
replace_enrichment-enrich_example =
    replace_enrichment-enrich contained own_mention any_date seeded (commit_doc (some 1))
      seeded-IsValid (seed_concepts_idem stored_commit).1.0 commit_found (refl, tt)

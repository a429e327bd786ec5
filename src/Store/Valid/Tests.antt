-- ===== src/Store/Valid/Tests.antt =====
-- A page that commits, and a reset (bkb-store/src/sqlite.rs).
use bitcoin_knowledge_base.Base.{List, [], ◌∷◌}
use bitcoin_knowledge_base.Model.Document.{Document, Reference}
use bitcoin_knowledge_base.Store.Tables.{Db, Mention}
use bitcoin_knowledge_base.Store.Reset.{reset_source_type}
use bitcoin_knowledge_base.Store.Tests.{
  any_date, no_pattern, checkpoint, tag, page, stored_commit, after_page, commit_page_example,
  stored_commit-IsConsistent, stored_commit-IsKeyedRows, commit-IsStored,
}
use bitcoin_knowledge_base.Store.Valid.{IsValid}
use bitcoin_knowledge_base.Store.Valid.Steps.{
  Steps, start, further, committed, reset, Steps-IsValid,
}

abbrev no_evidence : Document → List Reference × List Mention
no_evidence doc = ([], [])

stored_commit-IsValid : IsValid stored_commit
stored_commit-IsValid = record {
  consistent = stored_commit-IsConsistent;
  referred = record {
    keyed = stored_commit-IsKeyedRows;
    refs = tt;
    mentions = (commit-IsStored, tt);
  };
}

abbrev emptied : Db
emptied = (reset_source_type no_pattern "commit" [] after_page).1

commit_then_reset : Steps any_date no_pattern no_evidence stored_commit emptied
commit_then_reset =
    further
      (further start
        (committed page [] (record tag { confidence = 2 } ∷ []) checkpoint commit_page_example))
      (reset "commit" [])

Steps-IsValid_example : IsValid emptied
Steps-IsValid_example =
    Steps-IsValid any_date no_pattern no_evidence stored_commit emptied commit_then_reset
      stored_commit-IsValid

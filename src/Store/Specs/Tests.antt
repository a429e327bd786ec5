-- ===== src/Store/Specs/Tests.antt =====
-- A LUD whose file name has two digits (bkb-store/src/sqlite.rs: lookup_lud).
use bitcoin_knowledge_base.Base.{◌^◌, ◌≡◌, refl, inr, some, [], ◌∷◌, arith, here, append}
use bitcoin_knowledge_base.Base.Decimal.{print, parse_below}
use bitcoin_knowledge_base.Model.SourceType
use bitcoin_knowledge_base.Model.SourceType.{lud}
use bitcoin_knowledge_base.Store.Tables.{Db, Row}
use bitcoin_knowledge_base.Store.Tests.{stored_commit, record_of}
use bitcoin_knowledge_base.Reconcile.View.{DocumentContext}
use bitcoin_knowledge_base.Store.Specs.{lookup_spec}
use bitcoin_knowledge_base.Store.Specs.Laws.{lookup_spec_lem}

abbrev lud_row : Row
lud_row = record { rowid = 2; doc = record_of "lud:lnurl/luds:06" lud "lnurl/luds" "06" (some 2) }

abbrev with_lud : Db
with_lud = record stored_commit { documents = lud_row ∷ [] }

after_zero : "06" ≡ append "0" (print 6)
unfolding print
after_zero = refl

lookup_spec_lem_example :
    (ctx : DocumentContext) × (lookup_spec lud 6 with_lud ≡ some ctx)
    × ((SourceType.as_str ctx.document.source_type ≡ SourceType.as_str lud)
        × (parse_below (2 ^ 32) ctx.document.source_id ≡ some 6))
lookup_spec_lem_example =
    lookup_spec_lem lud 6 with_lud lud_row (omega arith) (here refl) refl
      (inr (omega arith, after_zero))

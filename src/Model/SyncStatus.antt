-- ===== src/Model/SyncStatus.antt =====
-- `SyncStatus` of bkb-core/src/model.rs; a text that is none of the four is read as `pending`.
use bitcoin_knowledge_base.Base.{String, ◌==◌, if◌then◌else◌}

pub data SyncStatus : Type 0 where
  pending running ok error : SyncStatus

unfoldable pub as_str : SyncStatus → String
as_str pending = "pending"
as_str running = "running"
as_str ok = "ok"
as_str error = "error"

unfoldable pub from_str : String → SyncStatus
from_str s =
    if s == "running"
    then running
    else if s == "ok"
    then ok
    else if s == "error"
    then error
    else pending

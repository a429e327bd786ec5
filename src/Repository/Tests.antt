-- ===== src/Repository/Tests.antt =====
-- Names of a repository that has moved (bkb-core/src/repository.rs).
use bitcoin_knowledge_base.Base.{◌≡◌, if◌then◌else◌}
use bitcoin_knowledge_base.Repository.{forgejo_identity, is_migrated, logical_repo}
use bitcoin_knowledge_base.Repository.Laws.{logical_repo-forgejo_identity}

logical_repo-forgejo_identity_example : logical_repo (forgejo_identity "rust-bitcoin/corepc") ≡ (
    if is_migrated "rust-bitcoin/corepc"
    then "rust-bitcoin/corepc"
    else forgejo_identity "rust-bitcoin/corepc")
logical_repo-forgejo_identity_example = logical_repo-forgejo_identity "rust-bitcoin/corepc"

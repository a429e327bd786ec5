-- ===== src/Model/Tests.antt =====
-- Ids and names of sample records (bkb-core/src/model.rs, bkb-core/src/repository.rs).
use bitcoin_knowledge_base.Base.{String, ◌≡◌, refl, true}
use bitcoin_knowledge_base.Base.Split.{lacks}
use bitcoin_knowledge_base.Model.SourceType.{bip}
use bitcoin_knowledge_base.Model.Ids.{make_id_injective}

no_colon_in_repo : lacks 58 "bitcoin/bips" ≡ true
no_colon_in_repo = refl

make_id_injective_example :
    (bip ≡ bip) × ◌≡◌ {A = String} "bitcoin/bips" "bitcoin/bips" × ◌≡◌ {A = String} "340" "340"
make_id_injective_example =
    make_id_injective bip bip "bitcoin/bips" "bitcoin/bips" "340" "340" no_colon_in_repo
      no_colon_in_repo refl

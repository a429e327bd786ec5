-- ===== src/Model/Concepts/Protocol.antt =====
-- Soft forks, transactions and Lightning (bkb-core/src/bitcoin.rs: CONCEPTS).
use bitcoin_knowledge_base.Base.{List, [], ◌∷◌}
use bitcoin_knowledge_base.Model.Concepts.{ConceptDef}

abbrev pub soft_forks : List ConceptDef
soft_forks =
    (record {
      slug = "taproot";
      name = "Taproot";
      category = "soft-fork";
      aliases =
          "taproot" ∷ "bip-340" ∷ "bip-341" ∷ "bip-342" ∷ "bip340" ∷ "bip341" ∷ "bip342" ∷ "schnorr"
          ∷ [];
    })
    ∷ (record {
      slug = "segwit";
      name = "Segregated Witness";
      category = "soft-fork";
      aliases = "segwit" ∷ "segregated witness" ∷ "bip-141" ∷ "bip-143" ∷ "bip-144" ∷ "bip141" ∷ [];
    })
    ∷ (record {
      slug = "op-cat";
      name = "OP_CAT";
      category = "soft-fork";
      aliases = "op_cat" ∷ "op cat" ∷ "bip-347" ∷ "bip347" ∷ [];
    })
    ∷ (record {
      slug = "op-checktemplateverify";
      name = "OP_CHECKTEMPLATEVERIFY";
      category = "soft-fork";
      aliases =
          "op_checktemplateverify" ∷ "op_ctv" ∷ "ctv" ∷ "bip-119" ∷ "bip119" ∷ "checktemplateverify"
          ∷ [];
    })
    ∷ (record {
      slug = "op-checksigfromstack";
      name = "OP_CHECKSIGFROMSTACK";
      category = "soft-fork";
      aliases = "op_checksigfromstack" ∷ "op_csfs" ∷ "csfs" ∷ "checksigfromstack" ∷ [];
    })
    ∷ (record {
      slug = "covenants";
      name = "Covenants";
      category = "soft-fork";
      aliases = "covenant" ∷ "covenants" ∷ [];
    })
    ∷ []

abbrev pub scripting : List ConceptDef
scripting =
    (record {
      slug = "miniscript";
      name = "Miniscript";
      category = "scripting";
      aliases = "miniscript" ∷ "mini script" ∷ [];
    })
    ∷ (record {
      slug = "descriptors";
      name = "Output Script Descriptors";
      category = "scripting";
      aliases = "descriptor" ∷ "descriptors" ∷ "output descriptor" ∷ "output descriptors" ∷ [];
    })
    ∷ (record {
      slug = "psbt";
      name = "Partially Signed Bitcoin Transactions";
      category = "transaction";
      aliases = "psbt" ∷ "bip-174" ∷ "bip174" ∷ "partially signed" ∷ [];
    })
    ∷ (record {
      slug = "rbf";
      name = "Replace-By-Fee";
      category = "transaction";
      aliases = "replace-by-fee" ∷ "replace by fee" ∷ "rbf" ∷ "bip-125" ∷ "bip125" ∷ [];
    })
    ∷ (record {
      slug = "cpfp";
      name = "Child Pays for Parent";
      category = "transaction";
      aliases = "cpfp" ∷ "child pays for parent" ∷ "child-pays-for-parent" ∷ [];
    })
    ∷ (record {
      slug = "package-relay";
      name = "Package Relay";
      category = "transaction";
      aliases = "package relay" ∷ "package-relay" ∷ [];
    })
    ∷ (record {
      slug = "cluster-mempool";
      name = "Cluster Mempool";
      category = "mempool";
      aliases = "cluster mempool" ∷ "cluster-mempool" ∷ [];
    })
    ∷ (record {
      slug = "v3-transactions";
      name = "v3 Transactions";
      category = "transaction";
      aliases =
          "v3 transaction" ∷ "v3 transactions" ∷ "topologically restricted until confirmation"
          ∷ "truc" ∷ [];
    })
    ∷ (record {
      slug = "ephemeral-anchors";
      name = "Ephemeral Anchors";
      category = "transaction";
      aliases = "ephemeral anchor" ∷ "ephemeral anchors" ∷ "ephemeral-anchors" ∷ [];
    })
    ∷ []

abbrev pub lightning : List ConceptDef
lightning =
    (record {
      slug = "lightning";
      name = "Lightning Network";
      category = "lightning";
      aliases = "lightning network" ∷ "lightning" ∷ [];
    })
    ∷ (record {
      slug = "htlc";
      name = "Hash Time-Locked Contract";
      category = "lightning";
      aliases = "htlc" ∷ "hash time-locked contract" ∷ "hash time locked contract" ∷ [];
    })
    ∷ (record {
      slug = "ptlc";
      name = "Point Time-Locked Contract";
      category = "lightning";
      aliases = "ptlc" ∷ "point time-locked contract" ∷ [];
    })
    ∷ (record {
      slug = "channel-splicing";
      name = "Channel Splicing";
      category = "lightning";
      aliases = "splicing" ∷ "splice" ∷ "splice-in" ∷ "splice-out" ∷ "channel splicing" ∷ [];
    })
    ∷ (record {
      slug = "anchor-outputs";
      name = "Anchor Outputs";
      category = "lightning";
      aliases = "anchor output" ∷ "anchor outputs" ∷ "anchor channels" ∷ "anchor-outputs" ∷ [];
    })
    ∷ (record {
      slug = "bolt11";
      name = "BOLT11 Invoices";
      category = "lightning";
      aliases = "bolt11" ∷ "bolt-11" ∷ "bolt 11" ∷ "lightning invoice" ∷ [];
    })
    ∷ (record {
      slug = "bolt12";
      name = "BOLT12 Offers";
      category = "lightning";
      aliases = "bolt12" ∷ "bolt-12" ∷ "bolt 12" ∷ "offers" ∷ "lightning offers" ∷ [];
    })
    ∷ (record {
      slug = "onion-messages";
      name = "Onion Messages";
      category = "lightning";
      aliases = "onion message" ∷ "onion messages" ∷ "onion-messages" ∷ [];
    })
    ∷ (record {
      slug = "blinded-paths";
      name = "Blinded Paths";
      category = "lightning";
      aliases = "blinded path" ∷ "blinded paths" ∷ "blinded-paths" ∷ "route blinding" ∷ [];
    })
    ∷ (record {
      slug = "dual-funding";
      name = "Dual Funding";
      category = "lightning";
      aliases = "dual funding" ∷ "dual-funding" ∷ "interactive-tx" ∷ [];
    })
    ∷ (record {
      slug = "async-payments";
      name = "Async Payments";
      category = "lightning";
      aliases = "async payment" ∷ "async payments" ∷ "asynchronous payment" ∷ "async-payments" ∷ [];
    })
    ∷ (record {
      slug = "trampoline-routing";
      name = "Trampoline Routing";
      category = "lightning";
      aliases = "trampoline" ∷ "trampoline routing" ∷ "trampoline-routing" ∷ [];
    })
    ∷ (record {
      slug = "channel-jamming";
      name = "Channel Jamming";
      category = "lightning";
      aliases = "channel jamming" ∷ "channel-jamming" ∷ "jamming" ∷ [];
    })
    ∷ []

-- ===== src/Model/Concepts/Network.antt =====
-- Privacy, wallets, the network and what was added (bkb-core/src/bitcoin.rs: CONCEPTS).
use bitcoin_knowledge_base.Base.{List, [], ◌∷◌}
use bitcoin_knowledge_base.Model.Concepts.{ConceptDef}
use bitcoin_knowledge_base.Base.{◌++◌}
use bitcoin_knowledge_base.Model.Concepts.Protocol.{soft_forks, scripting, lightning}

abbrev pub privacy : List ConceptDef
privacy =
    (record {
      slug = "payjoin";
      name = "Payjoin";
      category = "privacy";
      aliases = "payjoin" ∷ "pay-join" ∷ "bip-78" ∷ "bip78" ∷ "p2ep" ∷ [];
    })
    ∷ (record {
      slug = "silent-payments";
      name = "Silent Payments";
      category = "privacy";
      aliases = "silent payment" ∷ "silent payments" ∷ "bip-352" ∷ "bip352" ∷ [];
    })
    ∷ (record {
      slug = "coinswap";
      name = "Coinswap";
      category = "privacy";
      aliases = "coinswap" ∷ "coin swap" ∷ [];
    })
    ∷ []

abbrev pub wallets : List ConceptDef
wallets =
    (record {
      slug = "musig2";
      name = "MuSig2";
      category = "cryptography";
      aliases = "musig" ∷ "musig2" ∷ "multi-signature" ∷ "multisig" ∷ [];
    })
    ∷ (record {
      slug = "frost";
      name = "FROST";
      category = "cryptography";
      aliases = "frost" ∷ "flexible round-optimized schnorr threshold" ∷ [];
    })
    ∷ (record {
      slug = "bip32";
      name = "HD Wallets";
      category = "wallet";
      aliases = "bip32" ∷ "bip-32" ∷ "hierarchical deterministic" ∷ "hd wallet" ∷ [];
    })
    ∷ []

abbrev pub network : List ConceptDef
network =
    (record { slug = "erlay"; name = "Erlay"; category = "p2p"; aliases = "erlay" ∷ [] })
    ∷ (record {
      slug = "compact-block-filters";
      name = "Compact Block Filters";
      category = "p2p";
      aliases =
          "compact block filter" ∷ "compact block filters" ∷ "bip-157" ∷ "bip-158" ∷ "bip157"
          ∷ "bip158" ∷ "neutrino" ∷ [];
    })
    ∷ (record {
      slug = "assumeutxo";
      name = "AssumeUTXO";
      category = "validation";
      aliases = "assumeutxo" ∷ "assume utxo" ∷ "assume-utxo" ∷ [];
    })
    ∷ []

abbrev pub more_lightning : List ConceptDef
more_lightning =
    (record {
      slug = "keysend";
      name = "Keysend";
      category = "lightning";
      aliases = "keysend" ∷ "spontaneous payment" ∷ "spontaneous payments" ∷ [];
    })
    ∷ (record {
      slug = "watchtower";
      name = "Watchtowers";
      category = "lightning";
      aliases = "watchtower" ∷ "watchtowers" ∷ "breach remedy" ∷ [];
    })
    ∷ (record {
      slug = "eltoo";
      name = "Eltoo";
      category = "lightning";
      aliases = "eltoo" ∷ "sighash_anyprevout" ∷ "anyprevout" ∷ "bip-118" ∷ "bip118" ∷ [];
    })
    ∷ (record {
      slug = "lsp";
      name = "Lightning Service Provider";
      category = "lightning";
      aliases = "lsp" ∷ "lightning service provider" ∷ "lsps" ∷ [];
    })
    ∷ (record {
      slug = "channel-factory";
      name = "Channel Factories";
      category = "lightning";
      aliases = "channel factory" ∷ "channel factories" ∷ "joinpool" ∷ "joinpools" ∷ [];
    })
    ∷ []

abbrev pub more_scripting : List ConceptDef
more_scripting =
    (record {
      slug = "timelock";
      name = "Timelocks";
      category = "scripting";
      aliases =
          "timelock" ∷ "timelocks" ∷ "cltv" ∷ "csv" ∷ "bip-65" ∷ "bip65" ∷ "bip-112" ∷ "bip112"
          ∷ "checklocktimeverify" ∷ "checksequenceverify" ∷ [];
    })
    ∷ (record {
      slug = "vaults";
      name = "Vaults";
      category = "scripting";
      aliases = "vault" ∷ "vaults" ∷ "bitcoin vault" ∷ "bitcoin vaults" ∷ [];
    })
    ∷ []

abbrev pub protocols : List ConceptDef
protocols =
    (record {
      slug = "lnurl";
      name = "LNURL";
      category = "protocols";
      aliases = "lnurl" ∷ "lnurl-pay" ∷ "lnurl-withdraw" ∷ "lnurl-auth" ∷ "lnurl-channel" ∷ [];
    })
    ∷ (record {
      slug = "ecash";
      name = "Ecash";
      category = "protocols";
      aliases = "ecash" ∷ "e-cash" ∷ "cashu" ∷ "chaumian" ∷ [];
    })
    ∷ (record {
      slug = "dlc";
      name = "Discreet Log Contracts";
      category = "protocols";
      aliases = "dlc" ∷ "discreet log contract" ∷ "discreet log contracts" ∷ [];
    })
    ∷ (record {
      slug = "submarine-swap";
      name = "Submarine Swaps";
      category = "protocols";
      aliases = "submarine swap" ∷ "submarine swaps" ∷ "atomic swap" ∷ "atomic swaps" ∷ [];
    })
    ∷ (record {
      slug = "nostr";
      name = "Nostr";
      category = "protocols";
      aliases = "nostr" ∷ "nip" ∷ [];
    })
    ∷ []

abbrev pub more_wallets : List ConceptDef
more_wallets =
    (record {
      slug = "coin-selection";
      name = "Coin Selection";
      category = "wallet";
      aliases = "coin selection" ∷ "coin-selection" ∷ "utxo selection" ∷ [];
    })
    ∷ (record {
      slug = "codex32";
      name = "Codex32";
      category = "wallet";
      aliases = "codex32" ∷ "bip-93" ∷ "bip93" ∷ [];
    })
    ∷ []

abbrev pub more_cryptography : List ConceptDef
more_cryptography =
    (record {
      slug = "threshold-signature";
      name = "Threshold Signatures";
      category = "cryptography";
      aliases = "threshold signature" ∷ "threshold signatures" ∷ "tss" ∷ [];
    })
    ∷ []

-- `CONCEPTS`
abbrev pub vocabulary : List ConceptDef
vocabulary =
    soft_forks
    ++ (scripting
        ++ (lightning
            ++ (privacy
                ++ (wallets
                    ++ (network
                        ++ (more_lightning
                            ++ (more_scripting
                                ++ (protocols ++ (more_wallets ++ more_cryptography)))))))))

-- ===== src/Model/Concepts.antt =====
-- The vocabulary of concepts (bkb-core/src/bitcoin.rs).
pub mod Protocol
pub mod Network
use bitcoin_knowledge_base.Base.{String, List}

pub record ConceptDef : Type 0 where
  pub slug : String
  pub name : String
  pub category : String
  pub aliases : List String

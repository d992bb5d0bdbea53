-- ===== src/Node.antt =====
-- The node (node/src/chain_spec.rs, `load_spec` of node/src/command.rs, pallets/protos/rpc): the
-- chains that it can start, their storage at genesis, and its answer to a request for a listing.
pub mod ChainSpec
pub mod Genesis
pub mod AuthorityKeys
pub mod Chains
mod Rpc
mod Tests

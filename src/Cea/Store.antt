-- ===== src/Cea/Store.antt =====
-- The receipt store (src/agent_crew/cea/store.py): the append-only table of receipt revisions, the
-- claim table of dispatch nonces and the claim table of intent lineages.
pub mod Receipts
pub mod Lifecycle
pub mod Nonces
pub mod Spending
pub mod Lineages
pub mod Holding
pub mod Revisions

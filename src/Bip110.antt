-- ===== src/Bip110.antt =====
-- src/bip110: the seven rules of BIP-110 over one transaction.
pub mod Context
pub mod Prevout
pub mod ScriptScan
pub mod Witness
pub mod Verdict
pub mod ScriptRules
pub mod Rules

-- ===== src/Classifiers.antt =====
-- src/classifiers.rs and src/classifiers: the classifier lenses.
pub mod Arc4
pub mod Arc4Symmetric
pub mod Arc4Reference
pub mod Multisig
pub mod MultisigShape
pub mod Structure
pub mod Envelope
pub mod MarkerScan

-- ===== src/Model/Catalog.antt =====
-- src/model.rs: the catalog of the classifiers, with the labels that each may give.
use Prim.Native.String.{String}
use mempool_atlas.Prelude.{List, [], ◌∷◌}

abbrev pub transaction_properties_classifier_id : String
transaction_properties_classifier_id = "transaction_properties"

abbrev pub transaction_shape_classifier_id : String
transaction_shape_classifier_id = "transaction_shape"

abbrev pub data_protocols_classifier_id : String
data_protocols_classifier_id = "data_protocols"

abbrev pub knots_bip110_classifier_id : String
knots_bip110_classifier_id = "knots_bip110"

pub data ClassifierMethodology : Type 0 where
  exact heuristic fingerprint policy : ClassifierMethodology

pub data ClassifierSemantics : Type 0 where
  multi_label rule_set : ClassifierSemantics

pub record ClassifierLabelDescriptor : Type 0 where
  pub key : String
  pub label : String
  pub description : String

pub record ClassifierDescriptor : Type 0 where
  pub id : String
  pub version : String
  pub title : String
  pub methodology : ClassifierMethodology
  pub semantics : ClassifierSemantics
  pub required_facts : List String
  pub labels : List ClassifierLabelDescriptor

abbrev pub label_of : String → String → String → ClassifierLabelDescriptor
label_of key label description = record { key = key; label = label; description = description }

abbrev pub transaction_properties_descriptor : ClassifierDescriptor
transaction_properties_descriptor = record {
  id = transaction_properties_classifier_id;
  version = "1";
  title = "Transaction properties";
  methodology = ClassifierMethodology.exact;
  semantics = ClassifierSemantics.multi_label;
  required_facts = "raw_transaction" ∷ "input_script_pubkeys" ∷ [];
  labels =
      label_of "version_1" "Version 1" "Serialized transaction version 1."
      ∷ label_of "version_2" "Version 2" "Serialized transaction version 2."
      ∷ label_of "version_3" "Version 3" "Serialized transaction version 3."
      ∷ label_of "version_other" "Other version" "A transaction version other than 1, 2, or 3."
      ∷ label_of "signals_rbf" "Signals RBF"
          "At least one input explicitly signals BIP-125 replaceability."
      ∷ label_of "has_witness" "Has witness" "At least one input has witness data."
      ∷ label_of "has_taproot_annex" "Taproot annex"
          "A P2TR input has a structural annex candidate."
      ∷ label_of "p2pk" "P2PK" "A known input or output uses pay-to-public-key."
      ∷ label_of "bare_multisig" "Bare multisig" "A known input or output uses bare multisig."
      ∷ label_of "p2pkh" "P2PKH" "A known input or output uses pay-to-public-key-hash."
      ∷ label_of "p2sh" "P2SH" "A known input or output uses pay-to-script-hash."
      ∷ label_of "p2wpkh" "P2WPKH" "A known input or output uses native witness public-key-hash."
      ∷ label_of "p2wsh" "P2WSH" "A known input or output uses native witness script-hash."
      ∷ label_of "p2tr" "P2TR" "A known input or output uses Taproot."
      ∷ label_of "p2a" "P2A" "A known input or output uses pay-to-anchor."
      ∷ label_of "unknown_witness_program" "Other witness program"
          "A known input or output uses another syntactically valid witness program."
      ∷ label_of "op_return" "OP_RETURN" "An output uses OP_RETURN."
      ∷ label_of "unknown_script" "Other script"
          "A known input or output script is outside the recognized families."
      ∷ [];
}

abbrev pub transaction_shape_descriptor : ClassifierDescriptor
transaction_shape_descriptor = record {
  id = transaction_shape_classifier_id;
  version = "2";
  title = "Transaction shape";
  methodology = ClassifierMethodology.heuristic;
  semantics = ClassifierSemantics.multi_label;
  required_facts = "raw_transaction" ∷ "input_script_pubkeys" ∷ [];
  labels =
      label_of "possible_coinjoin" "Possible CoinJoin"
        "A conservative equal-output, no-script-reuse heuristic."
      ∷ label_of "consolidation" "Consolidation" "At least five times as many inputs as outputs."
      ∷ label_of "batch_payout" "Batch payout" "At least five times as many outputs as inputs."
      ∷ label_of "other_shape" "Other shape"
          "Every registered transaction-shape heuristic was terminal and none matched."
      ∷ [];
}

abbrev pub data_protocols_descriptor : ClassifierDescriptor
data_protocols_descriptor = record {
  id = data_protocols_classifier_id;
  version = "2";
  title = "Data protocols";
  methodology = ClassifierMethodology.fingerprint;
  semantics = ClassifierSemantics.multi_label;
  required_facts = "raw_transaction" ∷ [];
  labels =
      label_of "inscription" "Inscription" "An Ordinals inscription-envelope fingerprint."
      ∷ label_of "brc20" "BRC-20" "A JSON-like BRC-20 marker inside an inscription envelope."
      ∷ label_of "runes" "Runes" "An OP_RETURN OP_13 runestone marker."
      ∷ label_of "stamps" "Stamps"
          "A bare-multisig carrier whose deobfuscated payload holds a Stamps marker."
      ∷ label_of "counterparty" "Counterparty"
          "A deobfuscated CNTRPRTY envelope in an OP_RETURN or bare-multisig carrier."
      ∷ label_of "omni" "Omni" "An OP_RETURN payload beginning with the Omni Class C marker."
      ∷ label_of "other_op_return" "Other OP_RETURN"
          "An OP_RETURN carrier with no registered OP_RETURN protocol fingerprint."
      ∷ label_of "no_detected_protocol" "No detected protocol"
          "No registered data-protocol fingerprint fired."
      ∷ [];
}

abbrev pub knots_bip110_descriptor : ClassifierDescriptor
knots_bip110_descriptor = record {
  id = knots_bip110_classifier_id;
  version = "1";
  title = "Knots BIP-110 compatibility";
  methodology = ClassifierMethodology.policy;
  semantics = ClassifierSemantics.rule_set;
  required_facts = "raw_transaction" ∷ "input_script_pubkeys" ∷ [];
  labels =
      label_of "compatible" "Compatible" "No BIP-110 policy violation or missing fact was found."
      ∷ label_of "violating" "Would violate" "At least one BIP-110 policy violation was proven."
      ∷ label_of "indeterminate" "Indeterminate"
          "No violation was proven and at least one required fact is missing."
      ∷ [];
}

abbrev pub classifier_catalog : List ClassifierDescriptor
classifier_catalog =
    transaction_properties_descriptor ∷ transaction_shape_descriptor ∷ data_protocols_descriptor
    ∷ knots_bip110_descriptor ∷ []

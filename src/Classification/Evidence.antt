-- ===== src/Classification/Evidence.antt =====
-- src/classification.rs: the published classification of a transaction, from its evidence.
use mempool_atlas.Prelude.{
  List, [], ◌∷◌, ◌++◌, map, map_option, length, is_empty, take, if◌then◌else◌,
}
use mempool_atlas.Bip110.Verdict.{RuleId, RuleVerdict, RuleOutcome, Violation, Missing, TxEvidence}
use mempool_atlas.Model.Rules.{
  Bip110RuleId, Bip110Assessment, Bip110RuleVerdict, Bip110RuleDetail,
  max_bip110_detail_exemplars_per_rule, rule_number, to_u64, status_of,
}

unfoldable pub public_rule_id : RuleId → Bip110RuleId
public_rule_id RuleId.output_size = Bip110RuleId.output_size
public_rule_id RuleId.element_size = Bip110RuleId.element_size
public_rule_id RuleId.undefined_version = Bip110RuleId.undefined_version
public_rule_id RuleId.taproot_annex = Bip110RuleId.taproot_annex
public_rule_id RuleId.control_block_size = Bip110RuleId.control_block_size
public_rule_id RuleId.op_success = Bip110RuleId.op_success
public_rule_id RuleId.tapscript_op_if = Bip110RuleId.tapscript_op_if

-- The triple that the match on the verdict gives.
abbrev pub published_verdict : RuleVerdict → Bip110RuleVerdict
published_verdict RuleVerdict.pass = Bip110RuleVerdict.pass
published_verdict (RuleVerdict.violate evidence missing) = Bip110RuleVerdict.violate
published_verdict (RuleVerdict.unknown missing) = Bip110RuleVerdict.unknown

abbrev pub published_evidence : RuleVerdict → List Violation
published_evidence (RuleVerdict.violate evidence missing) = evidence
published_evidence _ = []

abbrev pub published_missing : RuleVerdict → List Missing
published_missing RuleVerdict.pass = []
published_missing (RuleVerdict.violate evidence missing) = missing
published_missing (RuleVerdict.unknown missing) = missing

unfoldable pub detail_of : RuleOutcome → Bip110RuleDetail
unfolding public_rule_id
detail_of outcome = record {
  rule = public_rule_id outcome.rule;
  number = rule_number (public_rule_id outcome.rule);
  verdict = published_verdict outcome.verdict;
  evidence_count = to_u64 (length (published_evidence outcome.verdict));
  evidence = take max_bip110_detail_exemplars_per_rule (published_evidence outcome.verdict);
  missing_count = to_u64 (length (published_missing outcome.verdict));
  missing = take max_bip110_detail_exemplars_per_rule (published_missing outcome.verdict);
}

-- The pushes of the closure onto the two lists.
unfoldable pub violated_after : RuleOutcome → List Bip110RuleId → List Bip110RuleId
violated_after outcome rules = elim outcome.verdict [
  | RuleVerdict.pass ↦ rules
  | RuleVerdict.violate evidence missing ↦ rules ++ public_rule_id outcome.rule ∷ []
  | RuleVerdict.unknown missing ↦ rules
]

unfoldable pub unknown_after : RuleOutcome → List Bip110RuleId → List Bip110RuleId
unknown_after outcome rules = elim outcome.verdict [
  | RuleVerdict.pass ↦ rules
  | RuleVerdict.violate evidence missing ↦
      if is_empty missing then rules else rules ++ public_rule_id outcome.rule ∷ []
  | RuleVerdict.unknown missing ↦ rules ++ public_rule_id outcome.rule ∷ []
]

unfoldable pub violated_from : List RuleOutcome → List Bip110RuleId → List Bip110RuleId
unfolding violated_after
violated_from [] rules = rules
violated_from (outcome ∷ outcomes) rules = violated_from outcomes (violated_after outcome rules)

unfoldable pub unknown_from : List RuleOutcome → List Bip110RuleId → List Bip110RuleId
unfolding unknown_after
unknown_from [] rules = rules
unknown_from (outcome ∷ outcomes) rules = unknown_from outcomes (unknown_after outcome rules)

-- The fields `assessment` and `rules` of the classification.
unfoldable pub assessment_of : TxEvidence → Bip110Assessment
unfolding violated_from unknown_from public_rule_id
assessment_of evidence =
    let violated = violated_from evidence.rules [] in
    let unknown_rules = unknown_from evidence.rules [] in
    record {
      status = status_of violated unknown_rules;
      primary_rule = map_option (λ primary. public_rule_id primary.rule) evidence.primary_violation;
      violated_rules = violated;
      unknown_rules = unknown_rules;
    }

unfoldable pub details_of : TxEvidence → List Bip110RuleDetail
unfolding detail_of
details_of evidence = map detail_of evidence.rules

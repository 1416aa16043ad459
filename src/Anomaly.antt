-- ===== src/Anomaly.antt =====
-- src/model/anomaly.h and src/model/anomaly.cpp: what the analyzer reports of a rule.
use rules_analyzer.Base.{Bool, String, List}
use rules_analyzer.Rule.{Rule}
use rules_analyzer.RuleList.{RuleList}

pub data RuleAnomalyScope : Type 0 where
  fully_masked_rule partially_masked_rule : RuleAnomalyScope

pub data RuleAnomalyLevel : Type 0 where
  warning error : RuleAnomalyLevel

pub data RuleAnomalyType : Type 0 where
  shadowing redundancy correlation generalization redundancy_or_correlation : RuleAnomalyType

abbrev pub scope_to_string : RuleAnomalyScope → String
scope_to_string fully_masked_rule = "Fully masked"
scope_to_string partially_masked_rule = "Partially masked"

abbrev pub level_to_string : RuleAnomalyLevel → String
level_to_string warning = "warning"
level_to_string error = "error"

-- The subclasses of RuleAnomalyDetails with the rules that each keeps.
pub data RuleAnomalyDetails : Type 0 where
  shadowed : RuleList → RuleAnomalyDetails
  full_redundant : RuleList → RuleAnomalyDetails
  partial_redundant : RuleList → RuleAnomalyDetails
  correlated : RuleList → RuleAnomalyDetails
  redundant_or_correlated : RuleList → RuleList → RuleAnomalyDetails
  generalized : RuleList → RuleAnomalyDetails

-- What the constructor of each subclass passes to RuleAnomalyDetails.
abbrev pub anomaly_scope : RuleAnomalyDetails → RuleAnomalyScope
anomaly_scope (shadowed rs) = fully_masked_rule
anomaly_scope (full_redundant rs) = fully_masked_rule
anomaly_scope (partial_redundant rs) = partially_masked_rule
anomaly_scope (correlated rs) = partially_masked_rule
anomaly_scope (redundant_or_correlated rs cs) = partially_masked_rule
anomaly_scope (generalized rs) = partially_masked_rule

abbrev pub anomaly_level : RuleAnomalyDetails → RuleAnomalyLevel
anomaly_level (shadowed rs) = error
anomaly_level (full_redundant rs) = error
anomaly_level (partial_redundant rs) = error
anomaly_level (correlated rs) = warning
anomaly_level (redundant_or_correlated rs cs) = error
anomaly_level (generalized rs) = warning

abbrev pub anomaly_type : RuleAnomalyDetails → RuleAnomalyType
anomaly_type (shadowed rs) = shadowing
anomaly_type (full_redundant rs) = redundancy
anomaly_type (partial_redundant rs) = redundancy
anomaly_type (correlated rs) = correlation
anomaly_type (redundant_or_correlated rs cs) = redundancy_or_correlation
anomaly_type (generalized rs) = generalization

pub record RuleAnomaly : Type 0 where
  pub rule : Rule
  pub details : RuleAnomalyDetails

pub record RuleAnomalies : Type 0 where
  pub anomalies : List RuleAnomaly
  pub missing_deny_all : Bool

-- ===== src/Evidence/Contract.antt =====
-- The four independent dimensions of a claim (rintel/analysis/contract.py).
use rintel_core.Prelude.{◌≡◌, ◌↔◌, Bool, true, false, arith, Eq}

pub data TruthClass : Type 0 where
  observed resolved inferred heuristic : TruthClass

pub data ExecutionModality : Type 0 where
  must may unknown : ExecutionModality

pub data TargetResolution : Type 0 where
  exact candidate_set unknown : TargetResolution

pub data Coverage : Type 0 where
  complete partial unknown : Coverage

abbrev truth_beq : TruthClass → TruthClass → Bool
truth_beq observed observed = true
truth_beq resolved resolved = true
truth_beq inferred inferred = true
truth_beq heuristic heuristic = true
truth_beq _ _ = false

pub truth_beq_iff : (a b : TruthClass) → (truth_beq a b ≡ true) ↔ (a ≡ b)
truth_beq_iff a b = ground arith

instance abbrev pub truth_eq : Eq TruthClass
truth_eq = record { same = truth_beq; same_iff = truth_beq_iff }

abbrev modality_beq : ExecutionModality → ExecutionModality → Bool
modality_beq must must = true
modality_beq may may = true
modality_beq ExecutionModality.unknown ExecutionModality.unknown = true
modality_beq _ _ = false

pub modality_beq_iff : (a b : ExecutionModality) → (modality_beq a b ≡ true) ↔ (a ≡ b)
modality_beq_iff a b = ground arith

instance abbrev pub modality_eq : Eq ExecutionModality
modality_eq = record { same = modality_beq; same_iff = modality_beq_iff }

abbrev resolution_beq : TargetResolution → TargetResolution → Bool
resolution_beq exact exact = true
resolution_beq candidate_set candidate_set = true
resolution_beq TargetResolution.unknown TargetResolution.unknown = true
resolution_beq _ _ = false

pub resolution_beq_iff : (a b : TargetResolution) → (resolution_beq a b ≡ true) ↔ (a ≡ b)
resolution_beq_iff a b = ground arith

instance abbrev pub resolution_eq : Eq TargetResolution
resolution_eq = record { same = resolution_beq; same_iff = resolution_beq_iff }

abbrev coverage_beq : Coverage → Coverage → Bool
coverage_beq complete complete = true
coverage_beq partial partial = true
coverage_beq Coverage.unknown Coverage.unknown = true
coverage_beq _ _ = false

pub coverage_beq_iff : (a b : Coverage) → (coverage_beq a b ≡ true) ↔ (a ≡ b)
coverage_beq_iff a b = ground arith

instance abbrev pub coverage_eq : Eq Coverage
coverage_eq = record { same = coverage_beq; same_iff = coverage_beq_iff }

-- ===== src/Corrections/Examples.antt =====
-- The theorems on corrections at a ledger of one retraction.
use jamesbrain.Common.{false, ◌≡◌, ◌↔◌, refl, List, [], ◌∷◌, none, Memᴰ, arith}
use jamesbrain.Corrections.{
  KnowledgePrimitiveKind, CorrectionOperation, AssertionEffectiveness, KnowledgeReference,
  Correction, identity_key, validate, from_corrections, in_keys, resolve, replacement_fits,
}
use jamesbrain.Corrections.Effectiveness.{resolve-ineffective_iff, resolve-isolation}

-- State 4 of user 7.
abbrev state_4 : KnowledgeReference
state_4 = record { kind = KnowledgePrimitiveKind.state; assertion_id = 4; user_id = 7 }

abbrev state_of_8 : KnowledgeReference
state_of_8 = record { kind = KnowledgePrimitiveKind.state; assertion_id = 4; user_id = 8 }

abbrev retraction : Correction
retraction = record {
  id = 1;
  user_id = 7;
  operation = CorrectionOperation.retract;
  target = state_4;
  replacement = none;
}

abbrev ledger : List Correction
ledger = retraction ∷ []

resolve-ineffective_iff_example :
    (resolve (from_corrections ledger []) state_4 ≡ AssertionEffectiveness.ineffective) ↔ (
      (in_keys (identity_key state_4) [] ≡ false)
      × ((c : Correction) × Memᴰ c ledger × (identity_key c.target ≡ identity_key state_4)))
resolve-ineffective_iff_example = resolve-ineffective_iff ledger [] state_4

resolve-isolation_example :
    resolve (from_corrections ledger []) state_of_8 ≡ resolve (from_corrections [] []) state_of_8
unfolding validate replacement_fits
resolve-isolation_example =
    resolve-isolation 7 ledger [] state_of_8 ((refl, refl), tt) (λ e. omega (arith, e))

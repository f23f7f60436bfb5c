-- ===== src/Measurements.antt =====
-- Observed quantities (pke/src/pke/domain/measurements.py) and what is asked of them
-- (pke/src/pke/query/spec.py). A Decimal is the code of its value.
pub mod Resolver
pub mod Modes
pub mod Groups
pub mod Partition
pub mod Query
pub mod Latest
pub mod Proposition
pub mod Pool
pub mod Shown
pub mod Examples
use jamesbrain.Common.{ℕ, Text, Bool, not, ◌&&◌, Option, is_some}
use jamesbrain.Temporal.Instant.{DateTime}
use jamesbrain.Temporal.Knowledge.{TemporalKnowledge}

-- Equality of decimals is that of their values.
abbrev pub Decimal : Type 0
Decimal = ℕ

-- `Measurement`, without the fields that no query reads: source, raw_input_id, confidence, created_at.
pub record Measurement : Type 0 where
  pub id : Text
  pub user_id : Text
  pub entity_id : Text
  pub context_entity_id : Option Text
  pub dimension_key : Text
  pub dimension_concept_id : Option Text
  pub numeric_value : Decimal
  pub unit : Option Text
  pub currency_code : Option Text
  pub temporal : TemporalKnowledge
  pub observed_at : Option DateTime

pub data MeasurementQueryMode : Type 0 where
  latest_observation observation_at_time : MeasurementQueryMode
  observations_in_range value_proposition : MeasurementQueryMode

pub record MeasurementValueFilter : Type 0 where
  pub numeric_value : Decimal
  pub unit : Option Text
  pub currency_code : Option Text

-- `_xor_unit_currency`, as the test that it does not raise.
unfoldable pub is_filter : MeasurementValueFilter → Bool
is_filter f = not (is_some f.unit && is_some f.currency_code)

-- ===== src/Product/World.antt =====
-- What a method of the product reads and writes: the tables of `ProductStore`
-- (pke/src/pke/product/conversation/store.py), the knowledge behind the engine gateway, and what is
-- outside of both: the clock, new ids, the faults of the database.
use jamesbrain.Common.{ℕ, suc, Text, Bool, List, Option, none, some}
use jamesbrain.Product.Dtos.{
  ApiClarificationMode, ApiClarificationOption, ApiMessage, ApiMessageResponse,
}

pub data IdempotencyStatus : Type 0 where
  in_progress completed failed recovery_required : IdempotencyStatus

-- What the `status` column holds: a status, nothing, or a text of no status.
pub data StoredStatus : Type 0 where
  known : IdempotencyStatus → StoredStatus
  blank : StoredStatus
  foreign : Text → StoredStatus

-- What `fromisoformat` makes of a stored time: empty, unreadable, or the microsecond it names, a
-- naive one read as UTC.
pub data Stamp : Type 0 where
  no_stamp unreadable : Stamp
  at : ℕ → Stamp

-- A `response_json` text that is not empty: `{}`, the dump of a response, or a JSON object that is
-- no response.
pub data Payload : Type 0 where
  empty_object : Payload
  dump : ApiMessageResponse → Payload
  no_response : Text → Payload

pub record IdempotencyRecord : Type 0 where
  pub user_id : Text
  pub client_request_id : Text
  pub request_fingerprint : Text
  pub conversation_id : Option Text
  pub status : StoredStatus
  pub response_json : Option Payload
  pub created_at : Stamp
  pub updated_at : Stamp

-- A row of `conversations`: `ConversationRecord` with its engine session, none for `{}`.
pub record ConversationRow (S : Type 0) : Type 0 where
  pub id : Text
  pub user_id : Text
  pub title : Text
  pub created_at : ℕ
  pub updated_at : ℕ
  pub engine_session : Option S

pub record MessageRow : Type 0 where
  pub user_id : Text
  pub client_request_id : Option Text
  pub message : ApiMessage

pub data ClarificationStatus : Type 0 where
  pending answered resolved : ClarificationStatus

pub record PendingClarification : Type 0 where
  pub id : Text
  pub conversation_id : Text
  pub user_id : Text
  pub message_id : Text
  pub mode : ApiClarificationMode
  pub options : List ApiClarificationOption
  pub original_text : Text
  pub status : ClarificationStatus
  pub pending_operation_json : Option Text

pub record Tables (S : Type 0) : Type 0 where
  pub idempotency : List IdempotencyRecord
  pub conversations : List (ConversationRow S)
  pub messages : List MessageRow
  pub clarifications : List PendingClarification

-- The tables, the knowledge, and how often the world outside was asked: a clock reading, a new id or
-- a statement on the database each counts once.
pub record World (K S : Type 0) : Type 0 where
  pub tables : Tables S
  pub knowledge : K
  pub calls : ℕ

pub data Error : Type 0 where
  store_error engine_error validation_error : Error
  product_store_unavailable requires_reconciliation : Error
  idempotency_conflict idempotency_in_progress conversation_not_found : Error

pub data Result (A : Type 0) : Type 0 where
  ok : A → Result A
  err : Error → Result A

-- What is asked of the engine for one message.
pub record EngineCall : Type 0 where
  pub text : Text
  pub user_id : Text
  pub recent_utterances : List Text
  pub conversation_id : Text
  pub client_request_id : Option Text
  pub request_id : Text

-- A turn of the engine: the response shown, and the pending operation of its ingest.
pub record Turn : Type 0 where
  pub response : ApiMessageResponse
  pub pending_operation_json : Option Text

-- The request that a fingerprint is taken of.
pub data FingerprintParts : Type 0 where
  message : Text → Text → FingerprintParts

-- What the methods rely on. By the number of the call: the new id, the time of the clock in
-- microseconds, whether the statement raises. Of the coded texts: the SHA-256 of a request, the
-- stripped text, the title made of a text. `engine` is the gateway, with what the presenter returns or
-- raises on its turn.
pub record Environment (K S : Type 0) : Type 0 where
  pub new_id : ℕ → Text
  pub clock : ℕ → ℕ
  pub fails : ℕ → Bool
  pub digest : FingerprintParts → Text
  pub strip : Text → Text
  pub title_from_text : Text → Text
  pub default_session : Text → S
  pub stale_after_seconds : ℕ
  pub engine : EngineCall → S → K → Result (Result Turn × S) × K

-- A method: what it returns or raises, and the world after it, since what was written stays written.
abbrev pub Action : Type 0 → Type 0 → Type 0 → Type 0
Action K S A = World K S → Result A × World K S

module _ {K S : Type 0} where
  abbrev pub pure : {A : Type 0} → A → Action K S A
  pure a w = (ok a, w)

  abbrev pub settle : {A : Type 0} → Result A → Action K S A
  settle r w = (r, w)

  abbrev pub raise : {A : Type 0} → Error → Action K S A
  raise e w = (err e, w)

  infixl 5 ◌>>=◌ ◌>>◌
  abbrev pub ◌>>=◌ : {A B : Type 0} → Action K S A → (A → Action K S B) → Action K S B
  ◌>>=◌ m f w = let (r, v) = m w in elim r [ ok a ↦ f a v | err e ↦ raise e v ]

  abbrev pub ◌>>◌ : {A B : Type 0} → Action K S A → Action K S B → Action K S B
  m >> k = m >>= λ _. k

  abbrev pub or_raise : {A : Type 0} → Option A → Error → Action K S A
  or_raise none e = raise e
  or_raise (some a) _ = pure a

  -- The next call of the world outside.
  abbrev pub ask : Action K S ℕ
  ask w = (ok w.calls, record { tables = w.tables; knowledge = w.knowledge; calls = suc w.calls })

  abbrev pub with_tables : World K S → Tables S → World K S
  with_tables w t = record { tables = t; knowledge = w.knowledge; calls = w.calls }

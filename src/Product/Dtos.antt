-- ===== src/Product/Dtos.antt =====
-- The messages and responses of the product's API (pke/src/pke/product/api/v1/dtos.py).
use jamesbrain.Common.{Text, Bool, List, Option}

pub data ApiResponseType : Type 0 where
  answer acknowledgement clarification unsupported error : ApiResponseType

pub data ApiMessageStatus : Type 0 where
  sending processing completed clarification_required failed cancelled : ApiMessageStatus

pub data ApiOperationKind : Type 0 where
  knowledge_write knowledge_query knowledge_correction clarification nothing : ApiOperationKind

pub data ApiOperationOutcome : Type 0 where
  committed partial deferred answered needs_clarification unsupported failed : ApiOperationOutcome

pub data ApiClarificationMode : Type 0 where
  choice text : ApiClarificationMode

pub data ApiMessageRole : Type 0 where
  user assistant system : ApiMessageRole

pub record ApiErrorBody : Type 0 where
  pub code : Text
  pub message : Text
  pub retryable : Option Bool

pub record ApiClarificationOption : Type 0 where
  pub id : Text
  pub label : Text

pub record ApiClarification : Type 0 where
  pub id : Text
  pub mode : ApiClarificationMode
  pub options : List ApiClarificationOption

pub record ApiOperation : Type 0 where
  pub kind : ApiOperationKind
  pub outcome : ApiOperationOutcome

-- Of `data` and `debug`, free JSON, only the text is kept.
pub record ApiMessageResponse : Type 0 where
  pub conversation_id : Text
  pub message_id : Text
  pub type : ApiResponseType
  pub status : ApiMessageStatus
  pub text : Text
  pub clarification : Option ApiClarification
  pub error : Option ApiErrorBody
  pub data_json : Option Text
  pub operation : Option ApiOperation
  pub request_id : Option Text
  pub client_request_id : Option Text
  pub user_message_id : Option Text
  pub debug : Option Text

-- The `type` of a message is a text: the value of a response type, or another one.
pub data MessageType : Type 0 where
  response_type : ApiResponseType → MessageType
  other_type : Text → MessageType

pub record ApiMessage : Type 0 where
  pub id : Text
  pub conversation_id : Text
  pub role : ApiMessageRole
  pub type : MessageType
  pub text : Text
  pub status : Option ApiMessageStatus
  pub created_at : Text
  pub clarification : Option ApiClarification
  pub error : Option ApiErrorBody
  pub data_json : Option Text
  pub operation : Option ApiOperation

pub record ApiMessageRequest : Type 0 where
  pub text : Text
  pub conversation_id : Option Text
  pub client_request_id : Option Text

-- ===== src/Product/Store.antt =====
-- Conversations, messages and clarifications of `ProductStore`
-- (pke/src/pke/product/conversation/store.py).
use jamesbrain.Common.{
  ℕ, Text, Bool, false, ◌&&◌, ◌||◌, List, [], ◌∷◌, Option, none, some, if◌then◌else◌, ◌==◌,
  is_filled, text_or,
}
use jamesbrain.Ranking.{key_lt}
use jamesbrain.Product.Dtos.{
  ApiClarification, ApiErrorBody, ApiMessage, ApiMessageRole, ApiMessageStatus, ApiOperation,
  MessageType,
}
use jamesbrain.Product.World.{
  ClarificationStatus, ConversationRow, MessageRow, PendingClarification, Tables, Environment,
  Action, ok, ask, pure, ◌>>=◌,
}
use jamesbrain.Product.Idempotency.{statement, now_stamp}

-- "Nova conversa"
abbrev pub nova_conversa : Text
nova_conversa = 1

-- The JSON payload of a message.
pub record MessagePayload : Type 0 where
  pub clarification : Option ApiClarification
  pub error : Option ApiErrorBody
  pub data_json : Option Text
  pub operation : Option ApiOperation

abbrev pub no_payload : MessagePayload
no_payload = record { clarification = none; error = none; data_json = none; operation = none }

module _ {S : Type 0} where
  abbrev pub owns : Text → Text → ConversationRow S → Bool
  owns user id row = row.id == id && row.user_id == user

  unfoldable pub find_conversation :
      Text → Text → List (ConversationRow S) → Option (ConversationRow S)
  find_conversation user id [] = none
  find_conversation user id (row ∷ rows) =
      if owns user id row then some row else find_conversation user id rows

  unfoldable pub update_conversation :
      Text
      → Text
      → (ConversationRow S → ConversationRow S)
      → List (ConversationRow S)
      → List (ConversationRow S)
  update_conversation user id f [] = []
  update_conversation user id f (row ∷ rows) =
      (if owns user id row then f row else row) ∷ update_conversation user id f rows

  -- The primary key is free.
  unfoldable pub has_conversation : Text → List (ConversationRow S) → Bool
  has_conversation id [] = false
  has_conversation id (row ∷ rows) = row.id == id || has_conversation id rows

  abbrev pub touched : Option Text → ℕ → ConversationRow S → ConversationRow S
  touched title t row = record {
    id = row.id;
    user_id = row.user_id;
    title = text_or title row.title;
    created_at = row.created_at;
    updated_at = t;
    engine_session = row.engine_session;
  }

  abbrev pub with_session : S → ConversationRow S → ConversationRow S
  with_session s row = record {
    id = row.id;
    user_id = row.user_id;
    title = row.title;
    created_at = row.created_at;
    updated_at = row.updated_at;
    engine_session = some s;
  }

  abbrev pub with_conversations : Tables S → List (ConversationRow S) → Tables S
  with_conversations t rows = record {
    idempotency = t.idempotency;
    conversations = rows;
    messages = t.messages;
    clarifications = t.clarifications;
  }

  abbrev pub with_messages : Tables S → List MessageRow → Tables S
  with_messages t rows = record {
    idempotency = t.idempotency;
    conversations = t.conversations;
    messages = rows;
    clarifications = t.clarifications;
  }

  abbrev pub with_clarifications : Tables S → List PendingClarification → Tables S
  with_clarifications t rows = record {
    idempotency = t.idempotency;
    conversations = t.conversations;
    messages = t.messages;
    clarifications = rows;
  }

unfoldable pub has_message : Text → List MessageRow → Bool
has_message id [] = false
has_message id (row ∷ rows) = row.message.id == id || has_message id rows

unfoldable pub has_clarification : Text → List PendingClarification → Bool
has_clarification id [] = false
has_clarification id (row ∷ rows) = row.id == id || has_clarification id rows

abbrev pub same_request : Text → Option Text → Bool
same_request request none = false
same_request request (some r) = r == request

abbrev pub time_key : ApiMessage → ℕ × Text
time_key m = (m.created_at, m.id)

-- `ORDER BY created_at ASC, id ASC`, a message at a time.
unfoldable pub place : ApiMessage → List ApiMessage → List ApiMessage
place m [] = m ∷ []
place m (x ∷ xs) =
    let rest = place m xs in if key_lt (time_key x) (time_key m) then x ∷ rest else m ∷ x ∷ xs

-- The rows of `find_messages_by_client_request`
unfoldable pub messages_of_request : Text → Text → List MessageRow → List ApiMessage
unfolding place
messages_of_request user request [] = []
messages_of_request user request (row ∷ rows) =
    let others = messages_of_request user request rows in
    if row.user_id == user && same_request request row.client_request_id
    then place row.message others
    else others

-- The rows of `list_messages`
unfoldable pub messages_of_conversation : Text → Text → List MessageRow → List ApiMessage
unfolding place
messages_of_conversation user conversation [] = []
messages_of_conversation user conversation (row ∷ rows) =
    let others = messages_of_conversation user conversation rows in
    if row.message.conversation_id == conversation && row.user_id == user
    then place row.message others
    else others

-- `_message_from_parts`
abbrev pub message_from_parts :
    Text
    → Text
    → ApiMessageRole
    → MessageType
    → Text
    → Option ApiMessageStatus
    → ℕ
    → MessagePayload
    → ApiMessage
message_from_parts id conversation role type text status stamp payload = record {
  id = id;
  conversation_id = conversation;
  role = role;
  type = type;
  text = text;
  status = status;
  created_at = stamp;
  clarification = payload.clarification;
  error = payload.error;
  data_json = payload.data_json;
  operation = payload.operation;
}

module _ {K S : Type 0} (env : Environment K S) where
  abbrev pub fresh_id : Action K S Text
  fresh_id w = (ok (env.new_id w.calls), (ask w).1)

  -- `value or new_id()`
  abbrev pub id_or : Option Text → Action K S Text
  id_or value = if is_filled value then pure (text_or value 0) else fresh_id

  unfoldable pub ping : Action K S Unit
  ping = statement env (λ t. some (tt, t))

  unfoldable pub create_conversation : Text → Text → Action K S (ConversationRow S)
  unfolding has_conversation
  create_conversation user title = do
    id ← fresh_id
    stamp ← now_stamp env
    statement env (λ t.
        let row : ConversationRow S = record {
          id = id;
          user_id = user;
          title = title;
          created_at = stamp;
          updated_at = stamp;
          engine_session = some (env.default_session user);
        } in
        if has_conversation id t.conversations
        then none
        else some (row, with_conversations t (row ∷ t.conversations)))

  unfoldable pub get_conversation : Text → Text → Action K S (Option (ConversationRow S))
  unfolding find_conversation
  get_conversation user id =
      statement env (λ t. some (find_conversation user id t.conversations, t))

  unfoldable pub touch_conversation : Text → Text → Option Text → Action K S Unit
  unfolding update_conversation
  touch_conversation user id title = do
    stamp ← now_stamp env
    statement env (λ t. some (
      tt,
      with_conversations t (update_conversation user id (touched title stamp) t.conversations),
    ))

  abbrev pub session_or : Text → Option (ConversationRow S) → S
  session_or user none = env.default_session user
  session_or user (some row) = elim row.engine_session [
    | none ↦ env.default_session user
    | some s ↦ s
  ]

  unfoldable pub load_engine_session : Text → Text → Action K S S
  unfolding find_conversation
  load_engine_session user id =
      statement env (λ t. some (session_or user (find_conversation user id t.conversations), t))

  unfoldable pub save_engine_session : Text → Text → S → Action K S Unit
  unfolding update_conversation
  save_engine_session user id s = statement env (λ t.
      some
        (tt, with_conversations t (update_conversation user id (with_session s) t.conversations)))

  unfoldable pub add_message :
      Text
      → Text
      → ApiMessageRole
      → MessageType
      → Text
      → Option ApiMessageStatus
      → MessagePayload
      → Option Text
      → Option Text
      → Action K S ApiMessage
  unfolding has_message
  add_message user conversation role type text status payload request value = do
    id ← id_or value
    stamp ← now_stamp env
    statement env (λ t.
        let message = message_from_parts id conversation role type text status stamp payload in
        let row : MessageRow = record {
          user_id = user;
          client_request_id = request;
          message = message;
        } in
        if has_message id t.messages
        then none
        else some (message, with_messages t (row ∷ t.messages)))

  unfoldable pub list_messages : Text → Text → Action K S (List ApiMessage)
  unfolding messages_of_conversation
  list_messages user conversation =
      statement env (λ t. some (messages_of_conversation user conversation t.messages, t))

  unfoldable pub find_messages_by_client_request : Text → Text → Action K S (List ApiMessage)
  unfolding messages_of_request
  find_messages_by_client_request user request =
      statement env (λ t. some (messages_of_request user request t.messages, t))

  unfoldable pub add_clarification :
      Text → Text → Text → ApiClarification → Text → Option Text → Action K S Text
  unfolding has_clarification
  add_clarification user conversation message_id c original_text pending = do
    id ← id_or (some c.id)
    stamp ← now_stamp env
    statement env (λ t.
        let row : PendingClarification = record {
          id = id;
          conversation_id = conversation;
          user_id = user;
          message_id = message_id;
          mode = c.mode;
          options = c.options;
          original_text = original_text;
          status = ClarificationStatus.pending;
          pending_operation_json = pending;
        } in
        if has_clarification id t.clarifications
        then none
        else some (id, with_clarifications t (row ∷ t.clarifications)))

-- ===== src/Product/Orchestrator.antt =====
-- `ConversationOrchestrator.send_message` and what it calls
-- (pke/src/pke/product/conversation/orchestrator.py). The engine gateway and the presenter are the
-- `engine` of the environment.
pub mod Frame
pub mod Methods
pub mod Durable
pub mod Runs
pub mod Replay
pub mod Resend
pub mod Completes
pub mod Reconciles
pub mod Awaiting
mod Examples
use jamesbrain.Common.{
  ℕ, ◌-◌, Text, Bool, true, false, ◌&&◌, ◌||◌, not, List, [], ◌∷◌, ◌++◌, Option, none, some,
  if◌then◌else◌, ◌==◌, is_filled, is_some, text_or, ltb, length, filter, map,
}
use jamesbrain.Product.Dtos.{
  ApiMessage, ApiMessageRequest, ApiMessageResponse, ApiMessageRole, ApiMessageStatus,
  ApiResponseType, MessageType,
}
use jamesbrain.Product.World.{
  Environment, Action, World, Error, EngineCall, FingerprintParts, Turn, Result, ConversationRow,
  ok, err, dump, pure, settle, raise, ◌>>=◌, ◌>>◌, store_error, engine_error, validation_error,
  product_store_unavailable, requires_reconciliation, idempotency_conflict, idempotency_in_progress,
  conversation_not_found, or_raise,
}
use jamesbrain.Product.Idempotency.{complete_idempotent, fail_idempotent}
use jamesbrain.Product.Store.{
  MessagePayload, no_payload, nova_conversa, fresh_id, ping, create_conversation, get_conversation,
  touch_conversation, load_engine_session, save_engine_session, add_message, list_messages,
  add_clarification,
}
use jamesbrain.Product.Recovery.{BeginOutcome, RecoveryAction, begin_or_replay}

module _ {K S : Type 0} where
  -- `try: m except Exception as e: handler(e)`
  abbrev pub catch : {A : Type 0} → Action K S A → (Error → Action K S A) → Action K S A
  catch m handler w = let (r, v) = m w in elim r [ ok a ↦ (ok a, v) | err e ↦ handler e v ]

abbrev pub is_user : ApiMessageRole → Bool
is_user ApiMessageRole.user = true
is_user ApiMessageRole.assistant = false
is_user ApiMessageRole.system = false

-- `texts[:-1]` if the last text is the current one
unfoldable pub drop_current : Text → List Text → List Text
drop_current current [] = []
drop_current current (t ∷ []) = if t == current then [] else t ∷ []
drop_current current (t ∷ u ∷ ts) = t ∷ drop_current current (u ∷ ts)

-- `texts[-n:]`
unfoldable pub last_n : ℕ → List Text → List Text
last_n n [] = []
last_n n (t ∷ ts) = let rest = last_n n ts in if ltb (length ts) n then t ∷ ts else rest

module _ {K S : Type 0} (env : Environment K S) where
  unfoldable pub message_fingerprint : Text → Option Text → Text
  message_fingerprint text conversation =
      env.digest (FingerprintParts.message text (text_or conversation 0))

  unfoldable pub user_texts : List ApiMessage → List Text
  user_texts ms =
      filter (λ t. is_filled (some t))
        (map (λ m. env.strip m.text) (filter (λ m. is_user m.role) ms))

  unfoldable pub prior_user_utterances : Text → Text → Text → Action K S (List Text)
  unfolding list_messages user_texts drop_current last_n
  prior_user_utterances user conversation current = do
    messages ← list_messages env user conversation
    pure (last_n 8 (drop_current (env.strip current) (user_texts messages)))

  unfoldable pub require_or_create : Text → Option Text → Action K S (ConversationRow S)
  unfolding get_conversation create_conversation
  require_or_create user conversation =
      if is_filled conversation
      then (do
        or_raise (← get_conversation env user (text_or conversation 0)) conversation_not_found)
      else create_conversation env user nova_conversa

  abbrev pub call_engine : EngineCall → S → Action K S (Result Turn × S)
  call_engine call session w =
      let (r, k) = env.engine call session w.knowledge in
      (r, record { tables = w.tables; knowledge = k; calls = w.calls })

  unfoldable pub ask_engine :
      Text → Text → Text → Option Text → Text → S → List Text → Action K S Turn
  unfolding save_engine_session
  ask_engine user conversation text request request_id session utterances =
      let call : EngineCall = record {
        text = text;
        user_id = user;
        recent_utterances = utterances;
        conversation_id = conversation;
        client_request_id = request;
        request_id = request_id;
      } in
      call_engine call session >>= λ answer.
      save_engine_session env user conversation answer.1 >> settle answer.0

  unfoldable pub run_engine : Text → Text → Text → Option Text → Action K S Turn
  unfolding load_engine_session prior_user_utterances ask_engine
  run_engine user conversation text request = do
    request_id ← fresh_id env
    session ← load_engine_session env user conversation
    utterances ← prior_user_utterances user conversation text
    ask_engine user conversation text request request_id session utterances

  abbrev pub save_clarification :
      Text → Text → Text → ApiMessageResponse → Option Text → Action K S Unit
  save_clarification user conversation text response pending = elim response.clarification [
    | none ↦ pure tt
    | some c ↦ add_clarification env user conversation response.message_id c text pending >> pure tt
  ]

  abbrev pub payload_of : ApiMessageResponse → MessagePayload
  payload_of r = record {
    clarification = r.clarification;
    error = r.error;
    data_json = r.data_json;
    operation = r.operation;
  }

  unfoldable pub persist_assistant :
      Text → Text → Text → ApiMessageResponse → Option Text → Action K S Unit
  unfolding add_message add_clarification touch_conversation
  persist_assistant user conversation text response pending = do
    save_clarification user conversation text response pending
    add_message env user conversation ApiMessageRole.assistant
        (MessageType.response_type response.type) response.text (some response.status)
        (payload_of response) response.client_request_id (some response.message_id)
    touch_conversation env user conversation none

  -- `response.model_copy(update={"user_message_id": id})`
  abbrev pub with_user_message : Text → ApiMessageResponse → ApiMessageResponse
  with_user_message id r = record {
    conversation_id = r.conversation_id;
    message_id = r.message_id;
    type = r.type;
    status = r.status;
    text = r.text;
    clarification = r.clarification;
    error = r.error;
    data_json = r.data_json;
    operation = r.operation;
    request_id = r.request_id;
    client_request_id = r.client_request_id;
    user_message_id = some id;
    debug = r.debug;
  }

  abbrev pub unavailable : Error → Action K S Unit
  unavailable e = raise product_store_unavailable

  -- `ensure_product_store()`, or the `ping()` of a request without a key.
  unfoldable pub ensure_product_store : Action K S Unit
  unfolding ping
  ensure_product_store = catch (ping env) unavailable

  abbrev pub has_request : ApiMessageRequest → Bool
  has_request r = is_filled r.client_request_id

  abbrev pub request_of : ApiMessageRequest → Text
  request_of r = text_or r.client_request_id 0

  abbrev pub when : Bool → Action K S Unit → Action K S Unit
  when c m = if c then m else pure tt

  unfoldable pub file_message :
      Text → ApiMessageRequest → ConversationRow S → Action K S (Text × Text)
  unfolding touch_conversation add_message
  file_message user r conversation = do
    when (conversation.title == nova_conversa)
        (touch_conversation env user conversation.id (some (env.title_from_text r.text)))
    message ←
        add_message env user conversation.id ApiMessageRole.user (MessageType.other_type 2) r.text
          (some ApiMessageStatus.completed) no_payload r.client_request_id none
    pure (conversation.id, message.id)

  -- What the `try` of `send_message` does before the engine runs: the conversation and the user's message.
  unfoldable pub take_message : Text → ApiMessageRequest → Action K S (Text × Text)
  unfolding ensure_product_store require_or_create file_message
  take_message user r =
      when (not (has_request r)) ensure_product_store
      >> require_or_create user r.conversation_id
      >>= file_message user r

  -- ... and up to the completion of the key.
  unfoldable pub conclude :
      Text
      → ApiMessageRequest
      → Text × Text
      → Turn
      → Action K S (Text × ApiMessageResponse × Option Text)
  unfolding complete_idempotent message_fingerprint
  conclude user r taken turn =
      let response = with_user_message taken.1 turn.response in
      when (has_request r) (
        complete_idempotent env user (request_of r) (dump response)
          (message_fingerprint r.text r.conversation_id) (some taken.0))
      >> pure (taken.0, response, turn.pending_operation_json)

  unfoldable pub answer_message :
      Text → ApiMessageRequest → Action K S (Text × ApiMessageResponse × Option Text)
  unfolding take_message run_engine conclude
  answer_message user r = take_message user r >>= λ taken.
      run_engine user taken.0 r.text r.client_request_id >>= conclude user r taken

  -- The `except` clauses, before the key is completed: the two errors that pass through, and the rest.
  abbrev pub passes_through : Error → Bool
  passes_through requires_reconciliation = true
  passes_through product_store_unavailable = true
  passes_through _ = false

  unfoldable pub give_up : {A : Type 0} → Text → ApiMessageRequest → Error → Action K S A
  unfolding fail_idempotent
  give_up user r e =
      when (has_request r && not (passes_through e)) (fail_idempotent env user (request_of r))
      >> raise e

  -- The `try` of `send_message`: once the key is completed, an error of the rest only passes through.
  unfoldable pub run_message : Text → ApiMessageRequest → Action K S ApiMessageResponse
  unfolding answer_message give_up persist_assistant
  run_message user r = do
    answer ← catch (answer_message user r) (give_up user r)
    persist_assistant user answer.0 r.text answer.1 answer.2
    pure answer.1

  -- What `send_message` does with the outcome of `begin_or_replay`.
  abbrev pub after_begin :
      BeginOutcome → Action K S ApiMessageResponse → Action K S ApiMessageResponse
  after_begin b rest = elim b.action [
    | RecoveryAction.replay_product_result ↦ elim b.response [
      | none ↦ rest
      | some response ↦ pure response
    ]
    | RecoveryAction.conflict ↦ raise idempotency_conflict
    | RecoveryAction.in_flight ↦ raise idempotency_in_progress
    | RecoveryAction.safe_engine_retry ↦ rest
  ]

  -- `send_message` of a request with a key.
  unfoldable pub send_keyed : Text → ApiMessageRequest → Action K S ApiMessageResponse
  unfolding ensure_product_store begin_or_replay run_message message_fingerprint
  send_keyed user r =
      ensure_product_store
      >> begin_or_replay env user (request_of r) (message_fingerprint r.text r.conversation_id)
          r.conversation_id
      >>= λ b. after_begin b (run_message user r)

  unfoldable pub send_message : Text → ApiMessageRequest → Action K S ApiMessageResponse
  unfolding send_keyed run_message
  send_message user r = if has_request r then send_keyed user r else run_message user r

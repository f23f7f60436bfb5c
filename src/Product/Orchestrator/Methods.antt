-- ===== src/Product/Orchestrator/Methods.antt =====
-- Which views of the idempotency table and of the knowledge the parts of `send_message` keep.
use jamesbrain.Common.{
  Text, Bool, true, false, List, Option, none, some, ◌≡◌, arith, refl, if◌then◌else◌, not,
}
use jamesbrain.Product.World.{
  Tables, Environment, ConversationRow, IdempotencyRecord, ◌>>=◌, ◌>>◌, pure,
}
use jamesbrain.Product.Dtos.{
  ApiClarification, ApiMessageRequest, ApiMessageResponse, ApiMessageRole, ApiMessageStatus,
  MessageType,
}
use jamesbrain.Product.Store.{
  MessagePayload, fresh_id, ping, create_conversation, get_conversation, touch_conversation,
  load_engine_session, save_engine_session, add_message, list_messages, add_clarification,
  find_messages_by_client_request,
}
use jamesbrain.Product.Orchestrator.{
  when, unavailable, ensure_product_store, require_or_create, take_message, run_engine,
  prior_user_utterances, persist_assistant, has_request, file_message, ask_engine, last_n,
  drop_current, user_texts,
}
use jamesbrain.Product.Orchestrator.Frame.{
  Keeps, view, SameView, Keeps-bind, Keeps-catch, Keeps-statement, Keeps-when,
}

module _ {K S X : Type 0} (q : List IdempotencyRecord → K → X) (env : Environment K S) where
  pub ping-Keeps : Keeps (view q) (ping env)
  unfolding ping
  ping-Keeps = Keeps-statement q env (λ t. some (tt, t)) (λ t k. refl)

  pub ensure_product_store-Keeps : Keeps (view q) (ensure_product_store env)
  unfolding ensure_product_store
  ensure_product_store-Keeps = Keeps-catch q (ping env) (unavailable env) ping-Keeps (λ e w. refl)

  -- The insertion of a row, unless its key is taken.
  SameView-if :
      {A : Type 0} (b : Bool) (t t' : Tables S) (a : A)
      → ((k : K) → q t'.idempotency k ≡ q t.idempotency k)
      → SameView q t (if b then none else some (a, t'))
  SameView-if true t t' a h = tt
  SameView-if false t t' a h = h

  pub get_conversation-Keeps : (u c : Text) → Keeps (view q) (get_conversation env u c)
  unfolding get_conversation
  get_conversation-Keeps u c w = ground arith

  pub create_conversation-Keeps : (u c : Text) → Keeps (view q) (create_conversation env u c)
  unfolding create_conversation
  create_conversation-Keeps u title w = ground arith

  pub touch_conversation-Keeps :
      (u c : Text) (t : Option Text) → Keeps (view q) (touch_conversation env u c t)
  unfolding touch_conversation
  touch_conversation-Keeps u c t w = ground arith

  pub require_or_create-Keeps :
      (u : Text) (c : Option Text) → Keeps (view q) (require_or_create env u c)
  unfolding require_or_create
  require_or_create-Keeps u c w = ground arith

  pub add_message-Keeps :
      (u c : Text) (role : ApiMessageRole) (type : MessageType) (text : Text)
      (status : Option ApiMessageStatus) (payload : MessagePayload) (request value : Option Text)
      → Keeps (view q) (add_message env u c role type text status payload request value)
  unfolding add_message
  add_message-Keeps u c role type text status payload request value w = ground arith

  pub add_clarification-Keeps :
      (u c m : Text) (x : ApiClarification) (text : Text) (pending : Option Text)
      → Keeps (view q) (add_clarification env u c m x text pending)
  unfolding add_clarification
  add_clarification-Keeps u c m x text pending w = ground arith

  pub load_engine_session-Keeps : (u c : Text) → Keeps (view q) (load_engine_session env u c)
  unfolding load_engine_session
  load_engine_session-Keeps u c w = ground arith

  pub save_engine_session-Keeps :
      (u c : Text) (s : S) → Keeps (view q) (save_engine_session env u c s)
  unfolding save_engine_session
  save_engine_session-Keeps u c s w = ground arith

  list_messages-Keeps : (u c : Text) → Keeps (view q) (list_messages env u c)
  unfolding list_messages
  list_messages-Keeps u c w = ground arith

  pub prior_user_utterances-Keeps :
      (u c t : Text) → Keeps (view q) (prior_user_utterances env u c t)
  unfolding prior_user_utterances
  prior_user_utterances-Keeps u c t =
      Keeps-bind q (list_messages env u c)
        (λ ms. pure (last_n 8 (drop_current (env.strip t) (user_texts env ms))))
        (list_messages-Keeps u c) (λ ms w. refl)

  pub find_messages-Keeps : (u c : Text) → Keeps (view q) (find_messages_by_client_request env u c)
  unfolding find_messages_by_client_request
  find_messages-Keeps u c w = ground arith

  pub persist_assistant-Keeps :
      (u c t : Text) (r : ApiMessageResponse) (o : Option Text)
      → Keeps (view q) (persist_assistant env u c t r o)
  unfolding persist_assistant
  persist_assistant-Keeps u c t r o w =
      grind (arith, add_message-Keeps, add_clarification-Keeps, touch_conversation-Keeps)

  file_message-Keeps :
      (u : Text) (r : ApiMessageRequest) (c : ConversationRow S)
      → Keeps (view q) (file_message env u r c)
  unfolding file_message
  file_message-Keeps u r c w = grind (arith, touch_conversation-Keeps, add_message-Keeps)

  pub take_message-Keeps :
      (u : Text) (r : ApiMessageRequest) → Keeps (view q) (take_message env u r)
  unfolding take_message
  take_message-Keeps u r =
      Keeps-bind q
        (when env (not (has_request env r)) (ensure_product_store env)
          >> require_or_create env u r.conversation_id)
        (file_message env u r)
        (Keeps-bind q (when env (not (has_request env r)) (ensure_product_store env))
          (λ _. require_or_create env u r.conversation_id)
          (Keeps-when q (not (has_request env r)) env (ensure_product_store env)
            ensure_product_store-Keeps)
          (λ _. require_or_create-Keeps u r.conversation_id))
        (file_message-Keeps u r)

  -- The engine changes the knowledge, so the view must not depend on it.
  module _ (h : (rows : List IdempotencyRecord) (k k' : K) → q rows k' ≡ q rows k) where
    ask_engine-Keeps :
        (u c t : Text) (o : Option Text) (i : Text) (s : S) (us : List Text)
        → Keeps (view q) (ask_engine env u c t o i s us)
    unfolding ask_engine
    ask_engine-Keeps u c t o i s us w = grind (arith, save_engine_session-Keeps, h)

    pub run_engine-Keeps :
        (u c t : Text) (o : Option Text) → Keeps (view q) (run_engine env u c t o)
    unfolding run_engine
    run_engine-Keeps u c t o =
        Keeps-bind q (fresh_id env)
          (λ i. load_engine_session env u c >>= λ s.
            prior_user_utterances env u c t >>= ask_engine env u c t o i s)
          (λ w. refl)
          (λ i.
            Keeps-bind q (load_engine_session env u c)
              (λ s. prior_user_utterances env u c t >>= ask_engine env u c t o i s)
              (load_engine_session-Keeps u c)
              (λ s.
                Keeps-bind q (prior_user_utterances env u c t) (ask_engine env u c t o i s)
                  (prior_user_utterances-Keeps u c t) (ask_engine-Keeps u c t o i s)))

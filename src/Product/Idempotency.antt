-- ===== src/Product/Idempotency.antt =====
-- The idempotency table of `ProductStore` (pke/src/pke/product/conversation/store.py and
-- idempotency.py): its rows by key, and the operations that claim, complete, fail and mark one.
pub mod Claims
use jamesbrain.Common.{
  ℕ, suc, Text, Bool, true, false, not, ◌&&◌, List, [], ◌∷◌, Option, none, some, if◌then◌else◌,
  ◌==◌, ◌/◌, ◌*◌, is_filled,
}
use jamesbrain.Product.World.{
  IdempotencyStatus, StoredStatus, Stamp, Payload, IdempotencyRecord, Tables, Environment, Action,
  World, Result, Error, known, blank, foreign, no_stamp, unreadable, at, ok, err, store_error, ask,
  with_tables, ◌>>=◌,
}
use jamesbrain.Product.World.IdempotencyStatus.{in_progress, completed, failed, recovery_required}

pub data IdempotencyClaimResult : Type 0 where
  proceed replay conflict busy needs_recovery : IdempotencyClaimResult

-- `datetime.now(UTC).replace(microsecond=0)`, of a reading of the clock
abbrev pub second_of : ℕ → ℕ
second_of t = t / 1000000 * 1000000

module _ {K S : Type 0} (env : Environment K S) where
  -- One transaction on the tables, by its number among the calls: it raises and writes nothing, or
  -- it is what `f` makes of the tables, which is none where a constraint is broken.
  abbrev pub statement : {A : Type 0} → (Tables S → Option (A × Tables S)) → Action K S A
  statement f w =
      let next : World K S = (ask w).1 in
      if env.fails w.calls then (err store_error, next) else elim (f w.tables) [
        | none ↦ (err store_error, next)
        | some (a, t) ↦ (ok a, with_tables next t)
      ]

  -- `_now()`
  abbrev pub now_stamp : Action K S ℕ
  now_stamp w = (ok (second_of (env.clock w.calls)), (ask w).1)

-- `WHERE user_id = ? AND client_request_id = ?`
abbrev pub has_key : Text → Text → IdempotencyRecord → Bool
has_key user request row = row.user_id == user && row.client_request_id == request

unfoldable pub lookup : Text → Text → List IdempotencyRecord → Option IdempotencyRecord
lookup user request [] = none
lookup user request (row ∷ rows) =
    if has_key user request row then some row else lookup user request rows

unfoldable pub update_row :
    Text
    → Text
    → (IdempotencyRecord → IdempotencyRecord)
    → List IdempotencyRecord
    → List IdempotencyRecord
update_row user request f [] = []
update_row user request f (row ∷ rows) =
    (if has_key user request row then f row else row) ∷ update_row user request f rows

abbrev pub with_status : IdempotencyStatus → ℕ → IdempotencyRecord → IdempotencyRecord
with_status s t row = record {
  user_id = row.user_id;
  client_request_id = row.client_request_id;
  request_fingerprint = row.request_fingerprint;
  conversation_id = row.conversation_id;
  status = known s;
  response_json = row.response_json;
  created_at = row.created_at;
  updated_at = at t;
}

-- What the statements of a claim and of a completion write, but for the time of creation.
abbrev pub written :
    Text
    → Option Text
    → IdempotencyStatus
    → Option Payload
    → ℕ
    → IdempotencyRecord
    → IdempotencyRecord
written fp conversation s response t row = record {
  user_id = row.user_id;
  client_request_id = row.client_request_id;
  request_fingerprint = fp;
  conversation_id = conversation;
  status = known s;
  response_json = response;
  created_at = row.created_at;
  updated_at = at t;
}

-- The row that is inserted for a key that has none.
abbrev pub new_row :
    Text → Text → Text → Option Text → IdempotencyStatus → Option Payload → ℕ → IdempotencyRecord
new_row user request fp conversation s response t = record {
  user_id = user;
  client_request_id = request;
  request_fingerprint = fp;
  conversation_id = conversation;
  status = known s;
  response_json = response;
  created_at = at t;
  updated_at = at t;
}

-- `row["status"] if row["status"] else "completed"`
abbrev pub read_status : StoredStatus → StoredStatus
read_status (known s) = known s
read_status blank = known completed
read_status (foreign s) = foreign s

-- `row["updated_at"] or row["created_at"]`
abbrev pub stamp_or : Stamp → Stamp → Stamp
stamp_or no_stamp t = t
stamp_or unreadable t = unreadable
stamp_or (at s) t = at s

-- The record that is built of a row.
unfoldable pub read_record : IdempotencyRecord → IdempotencyRecord
read_record row = record {
  user_id = row.user_id;
  client_request_id = row.client_request_id;
  request_fingerprint = row.request_fingerprint;
  conversation_id = row.conversation_id;
  status = read_status row.status;
  response_json = row.response_json;
  created_at = row.created_at;
  updated_at = stamp_or row.updated_at row.created_at;
}

unfoldable pub get_idempotency_record :
    Text → Text → List IdempotencyRecord → Option IdempotencyRecord
unfolding lookup read_record
get_idempotency_record user request rows = elim (lookup user request rows) [
  | none ↦ none
  | some row ↦ some (read_record row)
]

-- The tests of `claim_idempotent` on the status of the record, in their order.
abbrev pub classify_status : StoredStatus → Option Payload → IdempotencyClaimResult
classify_status (known completed) (some p) = IdempotencyClaimResult.replay
classify_status (known completed) none = IdempotencyClaimResult.needs_recovery
classify_status (known recovery_required) r = IdempotencyClaimResult.needs_recovery
classify_status (known in_progress) r = IdempotencyClaimResult.busy
classify_status (known failed) r = IdempotencyClaimResult.proceed
classify_status blank r = IdempotencyClaimResult.needs_recovery
classify_status (foreign s) r = IdempotencyClaimResult.needs_recovery

-- `proceed` here is a failed row, which is claimed again.
unfoldable pub classify : Text → IdempotencyRecord → IdempotencyClaimResult
classify fp r =
    if is_filled (some r.request_fingerprint) && not (r.request_fingerprint == fp)
    then IdempotencyClaimResult.conflict
    else classify_status r.status r.response_json

abbrev pub Claim : Type 0
Claim = IdempotencyClaimResult × Option IdempotencyRecord

-- The transaction of `claim_idempotent` on a record, by what it is classified as.
abbrev pub claim_known :
    Text
    → Text
    → Text
    → Option Text
    → ℕ
    → List IdempotencyRecord
    → IdempotencyRecord
    → IdempotencyClaimResult
    → Claim × List IdempotencyRecord
claim_known user request fp conversation stamp rows r IdempotencyClaimResult.proceed = (
  (IdempotencyClaimResult.proceed, none),
  update_row user request (written fp conversation in_progress none stamp) rows,
)
claim_known user request fp conversation stamp rows r IdempotencyClaimResult.replay =
    ((IdempotencyClaimResult.replay, some r), rows)
claim_known user request fp conversation stamp rows r IdempotencyClaimResult.conflict =
    ((IdempotencyClaimResult.conflict, some r), rows)
claim_known user request fp conversation stamp rows r IdempotencyClaimResult.busy =
    ((IdempotencyClaimResult.busy, some r), rows)
claim_known user request fp conversation stamp rows r IdempotencyClaimResult.needs_recovery =
    ((IdempotencyClaimResult.needs_recovery, some r), rows)

abbrev pub claim_found :
    Text
    → Text
    → Text
    → Option Text
    → ℕ
    → List IdempotencyRecord
    → Option IdempotencyRecord
    → Claim × List IdempotencyRecord
claim_found user request fp conversation stamp rows none = (
  (IdempotencyClaimResult.proceed, none),
  new_row user request fp conversation in_progress none stamp ∷ rows,
)
claim_found user request fp conversation stamp rows (some r) =
    claim_known user request fp conversation stamp rows r (classify fp r)

-- The transaction of `claim_idempotent`.
unfoldable pub claim :
    Text → Text → Text → Option Text → ℕ → List IdempotencyRecord → Claim × List IdempotencyRecord
unfolding classify get_idempotency_record
claim user request fp conversation stamp rows =
    claim_found user request fp conversation stamp rows (get_idempotency_record user request rows)

-- The upsert of `complete_idempotent`: a row that is there keeps its time of creation.
abbrev pub complete_found :
    Text
    → Text
    → Payload
    → Text
    → Option Text
    → ℕ
    → List IdempotencyRecord
    → Option IdempotencyRecord
    → List IdempotencyRecord
complete_found user request payload fp conversation stamp rows none =
    new_row user request fp conversation completed (some payload) stamp ∷ rows
complete_found user request payload fp conversation stamp rows (some row) =
    update_row user request (written fp conversation completed (some payload) stamp) rows

unfoldable pub complete :
    Text → Text → Payload → Text → Option Text → ℕ → List IdempotencyRecord → List IdempotencyRecord
unfolding lookup update_row
complete user request payload fp conversation stamp rows =
    complete_found user request payload fp conversation stamp rows (lookup user request rows)

module _ {K S : Type 0} (env : Environment K S) where
  abbrev pub set_rows : Tables S → List IdempotencyRecord → Tables S
  set_rows t rows = record {
    idempotency = rows;
    conversations = t.conversations;
    messages = t.messages;
    clarifications = t.clarifications;
  }

  unfoldable pub claim_idempotent : Text → Text → Text → Option Text → Action K S Claim
  unfolding claim
  claim_idempotent user request fp conversation = do
    stamp ← now_stamp env
    statement env (λ t.
        let (c, rows) = claim user request fp conversation stamp t.idempotency in
        some (c, set_rows t rows))

  unfoldable pub complete_idempotent : Text → Text → Payload → Text → Option Text → Action K S Unit
  unfolding complete
  complete_idempotent user request payload fp conversation = do
    stamp ← now_stamp env
    statement env (λ t.
        some (tt, set_rows t (complete user request payload fp conversation stamp t.idempotency)))

  -- The two updates of the status, `fail_idempotent` and `mark_recovery_required`.
  unfoldable pub set_status : IdempotencyStatus → Text → Text → Action K S Unit
  unfolding update_row
  set_status s user request = do
    stamp ← now_stamp env
    statement env
        (λ t. some (tt, set_rows t (update_row user request (with_status s stamp) t.idempotency)))

  unfoldable pub fail_idempotent : Text → Text → Action K S Unit
  unfolding set_status
  fail_idempotent user request = set_status failed user request

  unfoldable pub mark_recovery_required : Text → Text → Action K S Unit
  unfolding set_status
  mark_recovery_required user request = set_status recovery_required user request

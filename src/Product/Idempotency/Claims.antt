-- ===== src/Product/Idempotency/Claims.antt =====
-- What a claim of an idempotency key guarantees (pke/src/pke/product/conversation/store.py).
use jamesbrain.Common.{
  ℕ, Text, Bool, true, false, List, [], ◌∷◌, Option, none, some, ◌≡◌, ◌≢◌, refl, ap, inl, inr,
  if◌then◌else◌, ◌==◌, arith, Option-cases,
}
use jamesbrain.Product.World.{IdempotencyStatus, Payload, IdempotencyRecord, known}
use jamesbrain.Product.World.IdempotencyStatus.{in_progress, completed}
use jamesbrain.Product.Idempotency.{
  IdempotencyClaimResult, lookup, update_row, written, new_row, read_record, get_idempotency_record,
  classify, claim, claim_known, claim_found, complete, complete_found,
}

-- An update of rows that keeps their keys.
abbrev pub KeepsKey : (IdempotencyRecord → IdempotencyRecord) → Type 0
KeepsKey f =
    (r : IdempotencyRecord)
    → ((f r).user_id ≡ r.user_id) × ((f r).client_request_id ≡ r.client_request_id)

abbrev pub SameKey : Text → Text → Text → Text → Type 0
SameKey u c v d = (u ≡ v) × (c ≡ d)

abbrev option_map :
    (IdempotencyRecord → IdempotencyRecord) → Option IdempotencyRecord → Option IdempotencyRecord
option_map f none = none
option_map f (some r) = some (f r)

pub lookup-update_self :
    (u c : Text) (f : IdempotencyRecord → IdempotencyRecord) (rows : List IdempotencyRecord)
    → KeepsKey f
    → lookup u c (update_row u c f rows) ≡ option_map f (lookup u c rows)
unfolding lookup update_row
lookup-update_self u c f [] k = refl
lookup-update_self u c f (r ∷ rows) k = ground (arith, k r, lookup-update_self u c f rows k)

pub lookup-update_other :
    (u c v d : Text) (f : IdempotencyRecord → IdempotencyRecord) (rows : List IdempotencyRecord)
    → KeepsKey f
    → ¬ SameKey u c v d
    → lookup v d (update_row u c f rows) ≡ lookup v d rows
unfolding lookup update_row
lookup-update_other u c v d f [] k ne = refl
lookup-update_other u c v d f (r ∷ rows) k ne =
    ground (arith, k r, lookup-update_other u c v d f rows k ne)

-- The claim does not proceed.
abbrev pub Refused : IdempotencyClaimResult → Type 0
Refused v = v ≢ IdempotencyClaimResult.proceed

written-KeepsKey :
    (fp : Text) (o : Option Text) (s : IdempotencyStatus) (p : Option Payload) (t : ℕ)
    → KeepsKey (written fp o s p t)
written-KeepsKey fp o s p t r = (refl, refl)

-- A claim of a key whose record is refused leaves the table as it is.
pub claim_of_verdict :
    (u c fp : Text) (o : Option Text) (t : ℕ) (rows : List IdempotencyRecord)
    (r : IdempotencyRecord) (v : IdempotencyClaimResult)
    → get_idempotency_record u c rows ≡ some r
    → classify fp r ≡ v
    → Refused v
    → claim u c fp o t rows ≡ ((v, some r), rows)
unfolding claim
claim_of_verdict u c fp o t rows r v e k ne = rw (claim, e, k) (by_verdict v ne)
  where
    by_verdict :
        (v : IdempotencyClaimResult)
        → Refused v
        → claim_known u c fp o t rows r v ≡ ((v, some r), rows)
    by_verdict IdempotencyClaimResult.proceed ne = absurd (ne refl)
    by_verdict IdempotencyClaimResult.replay ne = refl
    by_verdict IdempotencyClaimResult.conflict ne = refl
    by_verdict IdempotencyClaimResult.busy ne = refl
    by_verdict IdempotencyClaimResult.needs_recovery ne = refl

lookup-new_other :
    (u c v d : Text) (row : IdempotencyRecord) (rows : List IdempotencyRecord)
    → row.user_id ≡ u
    → row.client_request_id ≡ c
    → ¬ SameKey u c v d
    → lookup v d (row ∷ rows) ≡ lookup v d rows
unfolding lookup
lookup-new_other u c v d row rows eu ec ne = ground arith

lookup-new_self :
    (u c : Text) (row : IdempotencyRecord) (rows : List IdempotencyRecord)
    → row.user_id ≡ u
    → row.client_request_id ≡ c
    → lookup u c (row ∷ rows) ≡ some row
unfolding lookup
lookup-new_self u c row rows eu ec = ground arith

-- A claim leaves the row of every other key as it is.
pub claim-other :
    (u c v d fp : Text) (o : Option Text) (t : ℕ) (rows : List IdempotencyRecord)
    → ¬ SameKey u c v d
    → lookup v d (claim u c fp o t rows).1 ≡ lookup v d rows
unfolding claim
claim-other u c v d fp o t rows ne = by_record (get_idempotency_record u c rows)
  where
    by_verdict :
        (r : IdempotencyRecord) (k : IdempotencyClaimResult)
        → lookup v d (claim_known u c fp o t rows r k).1 ≡ lookup v d rows
    by_verdict r IdempotencyClaimResult.proceed =
        lookup-update_other u c v d (written fp o in_progress none t) rows
          (written-KeepsKey fp o in_progress none t) ne
    by_verdict r IdempotencyClaimResult.replay = refl
    by_verdict r IdempotencyClaimResult.conflict = refl
    by_verdict r IdempotencyClaimResult.busy = refl
    by_verdict r IdempotencyClaimResult.needs_recovery = refl

    by_record :
        (o' : Option IdempotencyRecord)
        → lookup v d (claim_found u c fp o t rows o').1 ≡ lookup v d rows
    by_record none =
        lookup-new_other u c v d (new_row u c fp o in_progress none t) rows refl refl ne
    by_record (some r) = by_verdict r (classify fp r)

-- A completion leaves the row of every other key as it is.
pub complete-other :
    (u c v d : Text) (p : Payload) (fp : Text) (o : Option Text) (t : ℕ)
    (rows : List IdempotencyRecord)
    → ¬ SameKey u c v d
    → lookup v d (complete u c p fp o t rows) ≡ lookup v d rows
unfolding complete
complete-other u c v d p fp o t rows ne = by_row (lookup u c rows)
  where
    by_row :
        (o' : Option IdempotencyRecord)
        → lookup v d (complete_found u c p fp o t rows o') ≡ lookup v d rows
    by_row none = lookup-new_other u c v d (new_row u c fp o completed (some p) t) rows refl refl ne
    by_row (some r) =
        lookup-update_other u c v d (written fp o completed (some p) t) rows
          (written-KeepsKey fp o completed (some p) t) ne

-- The row of a key holds this completed result.
abbrev pub IsCompleted : Text → Payload → Option IdempotencyRecord → Type 0
IsCompleted fp p o =
    (row : IdempotencyRecord) × (o ≡ some row)
    × (row.request_fingerprint ≡ fp)
    × (row.status ≡ known completed)
    × (row.response_json ≡ some p)

-- After a completion the row of its key holds the result, whatever was there before.
pub complete-IsCompleted :
    (u c : Text) (p : Payload) (fp : Text) (o : Option Text) (t : ℕ) (rows : List IdempotencyRecord)
    → IsCompleted fp p (lookup u c (complete u c p fp o t rows))
unfolding complete
complete-IsCompleted u c p fp o t rows = by_row (lookup u c rows) refl
  where
    by_row :
        (o' : Option IdempotencyRecord)
        → lookup u c rows ≡ o'
        → IsCompleted fp p (lookup u c (complete_found u c p fp o t rows o'))
    by_row none e = (
      new_row u c fp o completed (some p) t,
      lookup-new_self u c (new_row u c fp o completed (some p) t) rows refl refl,
      refl,
      refl,
      refl,
    )
    by_row (some r) e = (
      written fp o completed (some p) t r,
      rw
          (
            lookup-update_self u c (written fp o completed (some p) t) rows
                (written-KeepsKey fp o completed (some p) t),
            e,
          )
          refl,
      refl,
      refl,
      refl,
    )

-- The record of a key that a worker holds.
abbrev pub IsClaimed : Text → Option IdempotencyRecord → Type 0
IsClaimed fp o =
    (r : IdempotencyRecord) × (o ≡ some r)
    × (r.request_fingerprint ≡ fp)
    × (r.status ≡ known in_progress)

pub get_record_of :
    (u c : Text) (rows : List IdempotencyRecord) (row : IdempotencyRecord)
    → lookup u c rows ≡ some row
    → get_idempotency_record u c rows ≡ some (read_record row)
unfolding get_idempotency_record
get_record_of u c rows row e = rw (get_idempotency_record, e) refl

row_of_record :
    (u c : Text) (rows : List IdempotencyRecord) (r : IdempotencyRecord)
    → get_idempotency_record u c rows ≡ some r
    → (row : IdempotencyRecord) × (lookup u c rows ≡ some row)
unfolding get_idempotency_record
row_of_record u c rows r e = elim (Option-cases (lookup u c rows)) [
  | inl none_there ↦ ground arith
  | inr found ↦ found
]

claim-IsClaimed :
    (u c fp : Text) (o : Option Text) (t : ℕ) (rows : List IdempotencyRecord)
    → (claim u c fp o t rows).0.0 ≡ IdempotencyClaimResult.proceed
    → IsClaimed fp (get_idempotency_record u c (claim u c fp o t rows).1)
unfolding claim read_record
claim-IsClaimed u c fp o t rows e = by_record (get_idempotency_record u c rows) refl e
  where
    by_verdict :
        (r : IdempotencyRecord) (k : IdempotencyClaimResult)
        → get_idempotency_record u c rows ≡ some r
        → (claim_known u c fp o t rows r k).0.0 ≡ IdempotencyClaimResult.proceed
        → IsClaimed fp (get_idempotency_record u c (claim_known u c fp o t rows r k).1)
    by_verdict r IdempotencyClaimResult.proceed er e =
        let (row, found) = row_of_record u c rows r er in
        let f = written fp o in_progress none t in
        (
          read_record (f row),
          get_record_of u c (update_row u c f rows) (f row) (
              rw (lookup-update_self u c f rows (written-KeepsKey fp o in_progress none t), found)
                refl),
          refl,
          refl,
        )
    by_verdict r IdempotencyClaimResult.replay er e = cc
    by_verdict r IdempotencyClaimResult.conflict er e = cc
    by_verdict r IdempotencyClaimResult.busy er e = cc
    by_verdict r IdempotencyClaimResult.needs_recovery er e = cc

    by_record :
        (o' : Option IdempotencyRecord)
        → get_idempotency_record u c rows ≡ o'
        → (claim_found u c fp o t rows o').0.0 ≡ IdempotencyClaimResult.proceed
        → IsClaimed fp (get_idempotency_record u c (claim_found u c fp o t rows o').1)
    by_record none er e =
        let row = new_row u c fp o in_progress none t in
        (
          read_record row,
          get_record_of u c (row ∷ rows) row (lookup-new_self u c row rows refl refl),
          refl,
          refl,
        )
    by_record (some r) er e = by_verdict r (classify fp r) er e

classify-held :
    (fp fp' : Text) (r : IdempotencyRecord)
    → fp ≢ 0
    → r.request_fingerprint ≡ fp
    → r.status ≡ known in_progress
    → classify fp' r
      ≡ (if fp == fp' then IdempotencyClaimResult.busy else IdempotencyClaimResult.conflict)
unfolding classify
classify-held fp fp' r ne ef es = rw (classify, ef, es) (ground arith)

busy_or_conflict-Refused :
    (b : Bool)
    → Refused (if b then IdempotencyClaimResult.busy else IdempotencyClaimResult.conflict)
busy_or_conflict-Refused true = λ x. cc
busy_or_conflict-Refused false = λ x. cc

-- Once a claim of a key with a fingerprint that is not empty proceeds, every further claim of the key is
-- refused and changes nothing: as in progress with the same fingerprint, as a conflict with another.
pub claim-excludes :
    (u c fp : Text) (o : Option Text) (t : ℕ) (rows : List IdempotencyRecord) (fp' : Text)
    (o' : Option Text) (t' : ℕ)
    → fp ≢ 0
    → (claim u c fp o t rows).0.0 ≡ IdempotencyClaimResult.proceed
    → ((claim u c fp' o' t' (claim u c fp o t rows).1).0.0
        ≡ (if fp == fp' then IdempotencyClaimResult.busy else IdempotencyClaimResult.conflict))
      × ((claim u c fp' o' t' (claim u c fp o t rows).1).1 ≡ (claim u c fp o t rows).1)
claim-excludes u c fp o t rows fp' o' t' ne e =
    let (r, er, ef, es) = claim-IsClaimed u c fp o t rows e in
    let v : IdempotencyClaimResult =
      if fp == fp' then IdempotencyClaimResult.busy else IdempotencyClaimResult.conflict in
    let k =
      claim_of_verdict u c fp' o' t' (claim u c fp o t rows).1 r v er
        (classify-held fp fp' r ne ef es) (busy_or_conflict-Refused (fp == fp')) in
    (ap (λ z. z.0.0) k, ap (λ z. z.1) k)

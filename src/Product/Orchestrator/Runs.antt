-- ===== src/Product/Orchestrator/Runs.antt =====
-- Runs of a method step by step: what a sequence, a handler and a statement come to.
use jamesbrain.Common.{
  Bool, true, false, if◌then◌else◌, Option, none, some, ◌≡◌, refl, ap, ◌∙◌, ◌⊎◌, inl, inr,
}
use jamesbrain.Product.World.{
  World, Tables, Environment, Action, Error, Result, ok, err, store_error, ◌>>=◌, raise, ask,
  with_tables,
}
use jamesbrain.Product.Idempotency.{statement}
use jamesbrain.Product.Orchestrator.{catch}

module _ {K S : Type 0} where
  pub bind_ok :
      {A B : Type 0} (m : Action K S A) (f : A → Action K S B) (w v : World K S) (a : A)
      → m w ≡ (ok a, v)
      → (m >>= f) w ≡ f a v
  bind_ok {A = A} {B = B} m f w v a e =
      ap (λ z. elim z.0 as (λ _. Result B × World K S) [ ok a ↦ f a z.1 | err x ↦ raise x z.1 ]) e

  pub bind_err :
      {A B : Type 0} (m : Action K S A) (f : A → Action K S B) (w v : World K S) (x : Error)
      → m w ≡ (err x, v)
      → (m >>= f) w ≡ (err x, v)
  bind_err {A = A} {B = B} m f w v x e =
      ap (λ z. elim z.0 as (λ _. Result B × World K S) [ ok a ↦ f a z.1 | err x ↦ raise x z.1 ]) e

  pub statement_err :
      {A : Type 0} (env : Environment K S) (f : Tables S → Option (A × Tables S)) (w : World K S)
      → env.fails w.calls ≡ true
      → statement env f w ≡ (err store_error, (ask w).1)
  statement_err env f w e = rw e refl

  pub statement_ok :
      {A : Type 0} (env : Environment K S) (f : Tables S → Option (A × Tables S)) (w : World K S)
      (a : A) (t : Tables S)
      → env.fails w.calls ≡ false
      → f w.tables ≡ some (a, t)
      → statement env f w ≡ (ok a, with_tables (ask w).1 t)
  statement_ok env f w a t e g = rw (e, g) refl

  pub catch_ok :
      {A : Type 0} (m : Action K S A) (h : Error → Action K S A) (w v : World K S) (a : A)
      → m w ≡ (ok a, v)
      → catch m h w ≡ (ok a, v)
  catch_ok {A = A} m h w v a e =
      ap (λ z. elim z.0 as (λ _. Result A × World K S) [ ok a ↦ (ok a, z.1) | err x ↦ h x z.1 ]) e

  pub catch_err :
      {A : Type 0} (m : Action K S A) (h : Error → Action K S A) (w v : World K S) (x : Error)
      → m w ≡ (err x, v)
      → catch m h w ≡ h x v
  catch_err {A = A} m h w v x e =
      ap (λ z. elim z.0 as (λ _. Result A × World K S) [ ok a ↦ (ok a, z.1) | err x ↦ h x z.1 ]) e

  -- A sequence that returned did so step by step.
  pub bind_inv :
      {A B : Type 0} (m : Action K S A) (f : A → Action K S B) (w v : World K S) (b : B)
      → (m >>= f) w ≡ (ok b, v)
      → (a : A) × (u : World K S) × (m w ≡ (ok a, u)) × (f a u ≡ (ok b, v))
  bind_inv {A = A} {B = B} m f w v b e = by_result (m w) refl e
    where
      by_result :
          (z : Result A × World K S)
          → m w ≡ z
          → elim z.0 as (λ _. Result B × World K S) [ ok a ↦ f a z.1 | err x ↦ raise x z.1 ]
            ≡ (ok b, v)
          → (a : A) × (u : World K S) × (m w ≡ (ok a, u)) × (f a u ≡ (ok b, v))
      by_result (ok a, u) k e = (a, u, k, e)
      by_result (err x, u) k e = cc

  -- A handler that returned either was not needed or returned itself.
  pub catch_inv :
      {A : Type 0} (m : Action K S A) (h : Error → Action K S A) (w v : World K S) (a : A)
      → catch m h w ≡ (ok a, v)
      → (m w ≡ (ok a, v)) ⊎ ((x : Error) × (u : World K S) × (h x u ≡ (ok a, v)))
  catch_inv {A = A} m h w v a e = by_result (m w) refl e
    where
      by_result :
          (z : Result A × World K S)
          → m w ≡ z
          → elim z.0 as (λ _. Result A × World K S) [ ok a ↦ (ok a, z.1) | err x ↦ h x z.1 ]
            ≡ (ok a, v)
          → (m w ≡ (ok a, v)) ⊎ ((x : Error) × (u : World K S) × (h x u ≡ (ok a, v)))
      by_result (ok b, u) k e = inl (k ∙ e)
      by_result (err x, u) k e = inr (x, u, e)

  -- A statement that returned wrote the tables that it made.
  pub statement_inv :
      {A : Type 0} (env : Environment K S) (f : Tables S → Option (A × Tables S)) (w v : World K S)
      (a : A)
      → statement env f w ≡ (ok a, v)
      → (t : Tables S) × (f w.tables ≡ some (a, t)) × (v ≡ with_tables (ask w).1 t)
  statement_inv {A = A} env f w v a e = by_fault (env.fails w.calls) (f w.tables) refl e
    where
      by_fault :
          (b : Bool) (o : Option (A × Tables S))
          → f w.tables ≡ o
          → (if b then (err store_error, (ask w).1) else elim o as (λ _. Result A × World K S) [
            | none ↦ (err store_error, (ask w).1)
            | some (a, t) ↦ (ok a, with_tables (ask w).1 t)
          ])
            ≡ (ok a, v)
          → (t : Tables S) × (f w.tables ≡ some (a, t)) × (v ≡ with_tables (ask w).1 t)
      by_fault true o k e = cc
      by_fault false none k e = cc
      by_fault false (some (b, t)) k e = (t, cc, cc)

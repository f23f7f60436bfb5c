-- ===== src/Product/Orchestrator/Frame.antt =====
-- Views of the world that the methods of the product leave as they are
-- (pke/src/pke/product/conversation/orchestrator.py).
use jamesbrain.Common.{Bool, true, false, List, Option, none, some, ◌≡◌, refl, ◌∙◌, if◌then◌else◌}
use jamesbrain.Product.World.{
  World, Tables, Environment, Action, Error, Result, IdempotencyRecord, ok, err, ◌>>=◌, ask, raise,
  store_error, with_tables,
}
use jamesbrain.Product.Idempotency.{statement}
use jamesbrain.Product.Orchestrator.{catch, when}

-- The method leaves the view `p` of the world as it is, whether it returns or raises.
abbrev pub Keeps : {K S A X : Type 0} → (World K S → X) → Action K S A → Type 0
Keeps p m = (w : _) → p (m w).1 ≡ p w

-- A view of the idempotency table and of the knowledge.
module _ {K S X : Type 0} (q : List IdempotencyRecord → K → X) where
  abbrev pub view : World K S → X
  view w = q w.tables.idempotency w.knowledge

  pub Keeps-bind :
      {A B : Type 0} (m : Action K S A) (f : A → Action K S B)
      → Keeps view m
      → ((a : A) → Keeps view (f a))
      → Keeps view (m >>= f)
  Keeps-bind {A = A} {B = B} m f hm hf w = by_result (m w) (hm w)
    where
      by_result :
          (z : Result A × World K S)
          → view z.1 ≡ view w
          → view
              (elim z.0 as (λ _. Result B × World K S) [ ok a ↦ f a z.1 | err e ↦ raise e z.1 ]).1
            ≡ view w
      by_result (ok a, v) e = hf a v ∙ e
      by_result (err x, v) e = e

  pub Keeps-catch :
      {A : Type 0} (m : Action K S A) (h : Error → Action K S A)
      → Keeps view m
      → ((e : Error) → Keeps view (h e))
      → Keeps view (catch m h)
  Keeps-catch {A = A} m h hm hh w = by_result (m w) (hm w)
    where
      by_result :
          (z : Result A × World K S)
          → view z.1 ≡ view w
          → view
              (elim z.0 as (λ _. Result A × World K S) [ ok a ↦ (ok a, z.1) | err e ↦ h e z.1 ]).1
            ≡ view w
      by_result (ok a, v) e = e
      by_result (err x, v) e = hh x v ∙ e

  -- What a statement makes of tables has the view that they had.
  abbrev pub SameView : {A : Type 0} → Tables S → Option (A × Tables S) → Type 0
  SameView t none = Unit
  SameView t (some (a, t')) = (k : K) → q t'.idempotency k ≡ q t.idempotency k

  pub Keeps-statement :
      {A : Type 0} (env : Environment K S) (f : Tables S → Option (A × Tables S))
      → ((t : Tables S) → SameView t (f t))
      → Keeps view (statement env f)
  Keeps-statement {A = A} env f h w = by_fault (env.fails w.calls) (f w.tables) (h w.tables)
    where
      by_fault :
          (b : Bool) (o : Option (A × Tables S))
          → SameView w.tables o
          → view
              (if b then (err store_error, (ask w).1) else elim o as (λ _. Result A × World K S) [
                | none ↦ (err store_error, (ask w).1)
                | some (a, t) ↦ (ok a, with_tables (ask w).1 t)
              ]).1
            ≡ view w
      by_fault true o s = refl
      by_fault false none s = refl
      by_fault false (some (a, t)) s = s w.knowledge

  pub Keeps-when :
      (c : Bool) (env : Environment K S) (m : Action K S Unit)
      → Keeps view m
      → Keeps view (when env c m)
  Keeps-when true env m h w = h w
  Keeps-when false env m h w = refl

-- ===== src/Workflow/Executor/Holds.antt =====
-- Invariants of the executor's code, whatever it returns and whatever other goroutines do.
use go_dashboard.Prelude.{
  ℕ, ◌+◌, Bool, true, false, List, [], ◌∷◌, if◌then◌else◌, Error, Result, ok, err,
}
use go_dashboard.Storage.Sql.{Sql, Ctx}
use go_dashboard.Storage.Calls.{Call, perform}
use go_dashboard.Storage.Tables.{unix_milli}
use go_dashboard.Workflow.Executor.World.{
  World, Event, Exec, pure, fail, gets, modify, store, attempt, others, happen, happen_all,
  interleave, continue, ◌>>=◌,
}

pub record Holds {A : Type 0} (P : World → Type 0) (m : Exec A) : Type 0 where
  pub at : (w : World) → P w → P (m w).1

-- Kept by other goroutines, by each call of the store, and by drawing an ID.
pub record IsStable (P : World → Type 0) : Type 0 where
  pub by_store :
      (ctx : Ctx) (at : ℕ) (call : Call) (w : World)
      → P w
      → P (record w { conn = perform ctx at call w.conn })
  pub by_draw : (w : World) → P w → P (record w { drawn = w.drawn + 1 })
  pub by_event : (e : Event) (w : World) → P w → P (happen e w)
  pub by_script : (w : World) (rest : List (List Event)) → P w → P (record w { script = rest })

module _ {P : World → Type 0} (stable : IsStable P) where
  happen_all-stable : (es : List Event) (w : World) → P w → P (happen_all es w)
  unfolding happen_all
  happen_all-stable [] w h = h
  happen_all-stable (e ∷ es) w h = happen_all-stable es (happen e w) (stable.by_event e w h)

  interleave-stable : (s : List (List Event)) (w : World) → P w → P (interleave s w)
  interleave-stable [] w h = h
  interleave-stable (es ∷ rest) w h =
      happen_all-stable es (record w { script = rest }) (stable.by_script w rest h)

  pub others-stable : (w : World) → P w → P (others w)
  unfolding others
  others-stable w h = interleave-stable w.script w h

  pub Holds-others : Holds P (modify others)
  Holds-others = record { at = others-stable }

  pub Holds-store :
      {A : Type 0} (ctx : World → Ctx) (op : Ctx → ℕ → Sql A)
      → ((w : World) → P w → P (record w { conn = (op (ctx w) (unix_milli w.clock) w.conn).1 }))
      → Holds P (store ctx op)
  unfolding store
  Holds-store ctx op h = record { at = λ w p. h (others w) (others-stable w p) }

module _ {A : Type 0} {P : World → Type 0} where
  pub Holds-pure : (a : A) → Holds P (pure a)
  Holds-pure a = record { at = λ w h. h }

  pub Holds-fail : (e : Error) → Holds P (fail {A = A} e)
  Holds-fail e = record { at = λ w h. h }

  pub Holds-gets : (f : World → A) → Holds P (gets f)
  Holds-gets f = record { at = λ w h. h }

  pub Holds-attempt : (m : Exec A) → Holds P m → Holds P (attempt m)
  unfolding attempt
  Holds-attempt m k = record { at = λ w h. k.at w h }

  pub Holds-if : (b : Bool) (m n : Exec A) → Holds P m → Holds P n → Holds P (if b then m else n)
  Holds-if true m n h k = h
  Holds-if false m n h k = k

module _ {A B : Type 0} {P : World → Type 0} where
  continue-Holds :
      (f : A → Exec B) (r : Result A) (w : World)
      → ((a : A) → Holds P (f a))
      → P w
      → P (continue r f w).1
  continue-Holds f (ok a) w k h = (k a).at w h
  continue-Holds f (err e) w k h = h

  pub Holds-bind :
      (m : Exec A) (f : A → Exec B) → Holds P m → ((a : A) → Holds P (f a)) → Holds P (m >>= f)
  unfolding ◌>>=◌
  Holds-bind m f h k = record {
    at = λ w p. let (r, w') = m w in continue-Holds f r w' k (h.at w p);
  }

-- ===== src/Storage/Sql/Keeps.antt =====
-- Invariants of database code, on its errors too.
use go_dashboard.Prelude.{◌≡◌, refl, Bool, true, false, if◌then◌else◌, Error, Result, ok, err}
use go_dashboard.Storage.Db.{Db}
use go_dashboard.Storage.Sql.{
  Conn, Sql, Ctx, pure, fail, lift, statement, ◌>>=◌, transaction, query, commit,
}
use go_dashboard.Storage.Sql.Triple
use go_dashboard.Storage.Sql.Triple.{
  After, Triple, Triple-statement, Triple-bind, Triple-transaction, Triple-weaken,
}

-- What a statement that is carried out does to the tables.
abbrev pub KeepsTables : {A : Type 0} → (Db → Type 0) → (Db → Result (A × Db)) → Type 0
KeepsTables {A} P f = (db : Db) → P db → (a : A) (db' : Db) → f db ≡ ok (a, db') → P db'

pub record Keeps {A : Type 0} (P : Db → Type 0) (m : Sql A) : Type 0 where
  pub triple : Triple P m (λ _. P) (λ _. P)

module _ {A : Type 0} {P : Db → Type 0} where
  pub Keeps-db : (m : Sql A) → Keeps P m → (conn : Conn) → P conn.db → P (m conn).1.db
  Keeps-db m k conn p = let (r, conn') = m conn in after r conn' (k.triple.at conn p)
    where
      after : (r : Result A) (conn : Conn) → After (λ _. P) (λ _. P) (r, conn) → P conn.db
      after (ok a) conn h = h
      after (err e) conn h = h

  pub Keeps-pure : (a : A) → Keeps P (pure a)
  Keeps-pure a = record { triple = record { at = λ conn p. p } }

  pub Keeps-fail : (e : Error) → Keeps P (fail {A = A} e)
  Keeps-fail e = record { triple = record { at = λ conn p. p } }

  pub Keeps-lift : (r : Result A) → Keeps P (lift r)
  Keeps-lift (ok a) = record { triple = record { at = λ conn p. p } }
  Keeps-lift (err e) = record { triple = record { at = λ conn p. p } }

  pub Keeps-query : (ctx : Ctx) (f : Db → A) → Keeps P (query ctx f)
  Keeps-query ctx f = record { triple = Triple-statement ctx _ (λ db p. p) (λ e db p. p) }

  settled :
      (db : Db) (r : Result (A × Db))
      → P db
      → ((a : A) (db' : Db) → r ≡ ok (a, db') → P db')
      → Triple.Settled (λ _. P) (λ _. P) db r
  settled db (ok (a, db')) p h = h a db' refl
  settled db (err e) p h = p

  pub Keeps-statement :
      (ctx : Ctx) (f : Db → Result (A × Db)) → KeepsTables P f → Keeps P (statement ctx f)
  Keeps-statement ctx f h = record {
    triple = Triple-statement ctx f (λ db p. settled db (f db) p (h db p)) (λ e db p. p);
  }

  pub Keeps-transaction : (ctx : Ctx) (body : Sql A) → Keeps P body → Keeps P (transaction ctx body)
  Keeps-transaction ctx body k = record {
    triple =
        Triple-transaction ctx body
          (Triple-weaken body k.triple (λ db p. p) (λ a db p. p) (λ e db p. tt)) (λ e db p. p);
  }

  pub Keeps-if : (b : Bool) (m n : Sql A) → Keeps P m → Keeps P n → Keeps P (if b then m else n)
  Keeps-if true m n h k = h
  Keeps-if false m n h k = k

module _ {A B : Type 0} {P : Db → Type 0} where
  pub Keeps-bind :
      (m : Sql A) (f : A → Sql B) → Keeps P m → ((a : A) → Keeps P (f a)) → Keeps P (m >>= f)
  Keeps-bind m f h k = record { triple = Triple-bind (λ _. P) m f h.triple (λ a. (k a).triple) }

pub Keeps-commit : {P : Db → Type 0} (ctx : Ctx) → Keeps P (commit ctx)
Keeps-commit ctx = record { triple = Triple-statement ctx _ (λ db p. p) (λ e db p. p) }

pub ruleset keeps_rules = (
  Keeps-pure, Keeps-fail, Keeps-lift, Keeps-query, Keeps-statement, Keeps-transaction, Keeps-if,
  Keeps-bind, Keeps-commit,
)

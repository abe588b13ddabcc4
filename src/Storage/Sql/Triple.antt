-- ===== src/Storage/Sql/Triple.antt =====
-- Pre- and postconditions of database code, for every script of faults: `Q` holds when the code
-- returns a value, and `E` when it returns an error.
use go_dashboard.Prelude.{Option, none, some, List, [], ◌∷◌, Error, Result, ok, err}
use go_dashboard.Storage.Db.{Db}
use go_dashboard.Storage.Sql.{
  Conn, Sql, Ctx, pure, fail, statement, continue, ◌>>=◌, transaction, settle, disturbed,
  rolled_back,
}

module _ {A : Type 0} (Q : A → Db → Type 0) (E : Error → Db → Type 0) where
  abbrev pub After : Result A × Conn → Type 0
  After (ok a, conn) = Q a conn.db
  After (err e, conn) = E e conn.db

  abbrev pub Settled : Db → Result (A × Db) → Type 0
  Settled db (ok (a, db')) = Q a db'
  Settled db (err e) = E e db

pub record Triple {A : Type 0} (P : Db → Type 0) (m : Sql A) (Q : A → Db → Type 0)
    (E : Error → Db → Type 0) : Type 0 where
  pub at : (conn : Conn) → P conn.db → After Q E (m conn)

module _ {A : Type 0} (Q : A → Db → Type 0) (E : Error → Db → Type 0) where
  settle-After :
      (conn : Conn) (r : Result (A × Db)) → Settled Q E conn.db r → After Q E (settle conn r)
  settle-After conn (ok (a, db)) h = h
  settle-After conn (err e) h = h

  disturbed-After :
      (conn : Conn) (faults : List (Option Error)) (f : Db → Result (A × Db))
      → Settled Q E conn.db (f conn.db)
      → ((e : Error) → E e conn.db)
      → After Q E (disturbed faults f conn)
  disturbed-After conn [] f h k = settle-After conn (f conn.db) h
  disturbed-After conn (none ∷ rest) f h k =
      settle-After (record conn { faults = rest }) (f conn.db) h
  disturbed-After conn (some e ∷ rest) f h k = k e

  rolled_back-After :
      (conn : Conn) (r : Result A) (conn' : Conn)
      → After Q (λ _ _. Unit {0}) (r, conn')
      → ((e : Error) → E e conn.db)
      → After Q E (rolled_back conn.db (r, conn'))
  rolled_back-After conn (ok a) conn' h k = h
  rolled_back-After conn (err e) conn' h k = k e

module _ {A B : Type 0} where
  continue-After :
      (M : A → Db → Type 0) (Q : B → Db → Type 0) (E : Error → Db → Type 0) (f : A → Sql B)
      → ((a : A) → Triple (M a) (f a) Q E)
      → (r : Result A) (conn : Conn) → After M E (r, conn)
      → After Q E (continue r f conn)
  continue-After M Q E f k (ok a) conn h = (k a).at conn h
  continue-After M Q E f k (err e) conn h = h

module _ {A : Type 0} {P : Db → Type 0} {Q : A → Db → Type 0} {E : Error → Db → Type 0} where
  pub Triple-pure : (a : A) → ((db : Db) → P db → Q a db) → Triple P (pure a) Q E
  Triple-pure a h = record { at = λ conn p. h conn.db p }

  pub Triple-fail : (e : Error) → ((db : Db) → P db → E e db) → Triple P (fail {A = A} e) Q E
  Triple-fail e h = record { at = λ conn p. h conn.db p }

  -- A statement that fails leaves the tables as they were.
  pub Triple-statement :
      (ctx : Ctx) (f : Db → Result (A × Db))
      → ((db : Db) → P db → Settled Q E db (f db))
      → ((e : Error) (db : Db) → P db → E e db)
      → Triple P (statement ctx f) Q E
  unfolding statement
  Triple-statement none f h k = record {
    at = λ conn p. disturbed-After Q E conn conn.faults f (h conn.db p) (λ e. k e conn.db p);
  }
  Triple-statement (some e) f h k = record { at = λ conn p. k e conn.db p }

module _ {A B : Type 0} {P : Db → Type 0} {E : Error → Db → Type 0} where
  pub Triple-bind :
      (M : A → Db → Type 0) {Q : B → Db → Type 0} (m : Sql A) (f : A → Sql B)
      → Triple P m M E
      → ((a : A) → Triple (M a) (f a) Q E)
      → Triple P (m >>= f) Q E
  unfolding ◌>>=◌
  Triple-bind M {Q = Q} m f h k = record {
    at = λ conn p. let (r, conn') = m conn in continue-After M Q E f k r conn' (h.at conn p);
  }

module _ {A : Type 0} {P : Db → Type 0} {Q : A → Db → Type 0} {E : Error → Db → Type 0} where
  -- Whatever its body did, a transaction that fails leaves the tables as they were.
  pub Triple-transaction :
      (ctx : Ctx) (body : Sql A)
      → Triple P body Q (λ _ _. Unit)
      → ((e : Error) (db : Db) → P db → E e db)
      → Triple P (transaction ctx body) Q E
  unfolding transaction
  Triple-transaction ctx body h k = record {
    at = λ conn p.
        let started =
          Triple-bind {P = P} {E = λ _ _. Unit {0}} (λ (_ : Unit {0}). P)
            (statement ctx (λ db. ok (tt, db))) (λ _. body)
            (Triple-statement ctx _ (λ db q. q) (λ e db q. tt)) (λ _. h) in
        let (r, conn') = (statement ctx (λ db. ok (tt, db)) >>= λ (_ : Unit {0}). body) conn in
        rolled_back-After Q E conn r conn' (started.at conn p) (λ e. k e conn.db p);
  }

  -- A longer precondition, a shorter postcondition.
  pub Triple-weaken :
      {P' : Db → Type 0} {Q' : A → Db → Type 0} {E' : Error → Db → Type 0} (m : Sql A)
      → Triple P' m Q' E'
      → ((db : Db) → P db → P' db)
      → ((a : A) (db : Db) → Q' a db → Q a db)
      → ((e : Error) (db : Db) → E' e db → E e db)
      → Triple P m Q E
  Triple-weaken {Q'} {E'} m h p q e = record {
    at = λ conn x. let (r, conn') = m conn in weaken r conn' (h.at conn (p conn.db x));
  }
    where
      weaken : (r : Result A) (conn : Conn) → After Q' E' (r, conn) → After Q E (r, conn)
      weaken (ok a) conn y = q a conn.db y
      weaken (err x) conn y = e x conn.db y

-- Anything may be said of no outcome.
pub Triple-any :
    {A : Type 0} (P : Db → Type 0) (m : Sql A) → Triple P m (λ _ _. Unit {0}) (λ _ _. Unit {0})
Triple-any {A} P m = record { at = λ conn _. let (r, conn') = m conn in nothing r conn' }
  where
    nothing : (r : Result A) (conn : Conn) → After (λ _ _. Unit {0}) (λ _ _. Unit {0}) (r, conn)
    nothing (ok a) conn = tt
    nothing (err e) conn = tt

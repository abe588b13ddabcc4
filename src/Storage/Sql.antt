-- ===== src/Storage/Sql.antt =====
-- `database/sql` over one connection (`SetMaxOpenConns(1)`). Each statement may fail: because its
-- context is done, or for a reason of the driver's, which `faults` scripts (`none` for a statement
-- that is not disturbed). What `fmt.Errorf` adds to such an error is not kept.
pub mod Triple
pub mod Keeps
use go_dashboard.Prelude.{
  ℕ, zero, suc, ◌+◌, ◌-◌, ◌*◌, ◌/◌, ◌≤◌, ◌<◌, String, ◌≡◌, refl, sym, ap, ◌∙◌, subst, ◌≢◌, ◌↔◌, ◌⊎◌,
  inl, inr, Bool, true, false, not, ◌&&◌, ◌||◌, Option, none, some, List, [], ◌∷◌, ◌++◌, map, arith,
  ◌==◌, eq_iff, eq_refl, ltb, leb, eqb, if◌then◌else◌, Bool-cases, Option-cases, length, get_elem?,
  select, find, any, count, map_where, length-append, All, All-append, ℤ, pos, negsuc, is_pos,
  is_neg, to_ℕ, eq_ℤ, lt_ℤ, is_blank, trim_space, cut_prefix, str_lt, Error, Flaw, Result, ok, err,
  ltb→lt, lt→ltb, leb→le,
}
use go_dashboard.Storage.Db.{Db}

pub record Conn : Type 0 where
  pub db : Db
  pub faults : List (Option Error)

abbrev pub Sql {ℓ} : Type ℓ → Type ℓ
Sql A = Conn → Result A × Conn

-- `ctx.Err()` when a call begins.
abbrev pub Ctx : Type 0
Ctx = Option Error

abbrev pub background : Ctx
background = none

module _ {ℓ} {A : Type ℓ} where
  abbrev pub pure : A → Sql A
  pure a conn = (ok a, conn)

  abbrev pub fail : Error → Sql A
  fail e conn = (err e, conn)

  abbrev pub lift : Result A → Sql A
  lift r conn = (r, conn)

module _ {A : Type 0} where
  abbrev settle : Conn → Result (A × Db) → Result A × Conn
  settle conn (ok (a, db)) = (ok a, record conn { db = db })
  settle conn (err e) = (err e, conn)

  abbrev undisturbed : (Db → Result (A × Db)) → Conn → Result A × Conn
  undisturbed f conn = settle conn (f conn.db)

  abbrev disturbed : List (Option Error) → (Db → Result (A × Db)) → Conn → Result A × Conn
  disturbed [] f conn = undisturbed f conn
  disturbed (none ∷ rest) f conn = undisturbed f (record conn { faults = rest })
  disturbed (some e ∷ rest) f conn = (err e, record conn { faults = rest })

  -- One statement: what it does to the tables, or the constraint that it breaks.
  unfoldable pub statement : Ctx → (Db → Result (A × Db)) → Sql A
  statement none f conn = disturbed conn.faults f conn
  statement (some e) f conn = (err e, conn)

module _ {A B : Type 0} where
  abbrev pub continue : Result A → (A → Sql B) → Sql B
  continue (ok a) f = f a
  continue (err e) f = fail e

  infixl 5 ◌>>=◌ ◌>>◌
  unfoldable pub ◌>>=◌ : Sql A → (A → Sql B) → Sql B
  ◌>>=◌ m f conn = let (r, conn') = m conn in continue r f conn'

  abbrev pub ◌>>◌ : Sql A → Sql B → Sql B
  m >> k = m >>= λ _. k

module _ {A : Type 0} where
  abbrev rolled_back : Db → Result A × Conn → Result A × Conn
  rolled_back db (ok a, conn) = (ok a, conn)
  rolled_back db (err e, conn) = (err e, record conn { db = db })

  -- `BeginTx`, the body, and the deferred `Rollback`, which undoes the body unless it has committed.
  -- A body that writes ends with `commit`.
  unfoldable pub transaction : Ctx → Sql A → Sql A
  unfolding statement ◌>>=◌
  transaction ctx body conn =
      rolled_back conn.db ((statement ctx (λ db. ok (tt, db)) >>= λ (_ : Unit {0}). body) conn)

-- `SELECT`
abbrev pub query : {A : Type 0} → Ctx → (Db → A) → Sql A
query ctx f = statement ctx (λ db. ok (f db, db))

-- `tx.Commit()`
abbrev pub commit : Ctx → Sql (Unit {0})
commit ctx = statement ctx (λ db. ok (tt, db))

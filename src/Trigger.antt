-- ===== src/Trigger.antt =====
-- backend/internal/trigger/request.go: the normalized request that starts a workflow.
-- An instant is a count of nanoseconds from Go's zero `time.Time`, so `IsZero` is the test for 0.
use go_dashboard.Prelude.{
  ℕ, String, ◌≡◌, refl, ◌||◌, List, [], ◌∷◌, arith, ◌==◌, eq_iff, eqb, if◌then◌else◌, is_blank,
  Error, Result,
}
use go_dashboard.Prelude.Results.{refuse_if}

abbrev pub Time : Type 0
Time = ℕ

abbrev pub StringMap : Type 0
StringMap = List (String × String)

-- `m[k]`, which is "" where the key is missing.
unfoldable pub get : String → StringMap → String
get k [] = ""
get k ((j, v) ∷ m) = if j == k then v else get k m

-- `m[k] = v`
unfoldable pub put : String → String → StringMap → StringMap
put k v [] = (k, v) ∷ []
put k v ((j, w) ∷ m) = if j == k then (k, v) ∷ m else (j, w) ∷ put k v m

pub get-put : (k j v : String) (m : StringMap) → get j (put k v m) ≡ (if k == j then v else get j m)
unfolding get put
get-put k j v [] = refl
get-put k j v ((i, w) ∷ m) = ground (arith, eq_iff k j, eq_iff i k, eq_iff i j, get-put k j v m)

pub record Source : Type 0 where
  pub id : String
  pub kind : String
  pub external_id : String
  pub author_id : String
  pub content : String
  pub occurred_at : Time
  pub metadata : StringMap

pub record Request : Type 0 where
  pub id : String
  pub source : String
  pub type : String
  pub content : String
  pub metadata : StringMap
  pub sources : List Source
  pub received_at : Time

unfoldable pub validate : Request → Result (Unit {0})
validate request =
    refuse_if
      (is_blank request.id
        || is_blank request.source
        || is_blank request.type
        || is_blank request.content
        || eqb request.received_at 0)
      Error.invalid_request

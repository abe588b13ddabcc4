-- ===== src/Json.antt =====
-- JSON texts as `encoding/json` sees them: `json.RawMessage` is the value that its bytes parse to, or
-- no bytes, or bytes that do not parse. `json.Marshal` writes the fields of a map in key order.
use go_dashboard.Prelude.{
  String, ◌≡◌, refl, Bool, Option, none, some, arith, ◌==◌, eq_iff, if◌then◌else◌, str_lt,
}

mutual
  pub data Json : Type 0 where
    null : Json
    bool : Bool → Json
    num : String → Json
    str : String → Json
    arr : Items → Json
    obj : Fields → Json

  pub data Items : Type 0 where
    nil : Items
    cons : Json → Items → Items

  pub data Fields : Type 0 where
    end : Fields
    field : String → Json → Fields → Fields

pub data RawMessage : Type 0 where
  absent : RawMessage
  document : Json → RawMessage
  malformed : String → RawMessage

-- `json.Unmarshal(raw, &v)` into `any`; no bytes are not a JSON text.
unfoldable pub unmarshal : RawMessage → Option Json
unmarshal absent = none
unmarshal (document j) = some j
unmarshal (malformed s) = none

-- `m[k] = v` on a map, kept in key order.
unfoldable pub set_field : String → Json → Fields → Fields
set_field k v end = field k v end
set_field k v (field j w fs) =
    let rest = field j w (set_field k v fs) in
    if k == j then field k v fs else if str_lt k j then field k v (field j w fs) else rest

unfoldable pub get_field : String → Fields → Option Json
get_field k end = none
get_field k (field j w fs) = if j == k then some w else get_field k fs

pub get-set_field :
    (k j : String) (v : Json) (fs : Fields)
    → get_field j (set_field k v fs) ≡ (if k == j then some v else get_field j fs)
unfolding set_field get_field
get-set_field k j v end = refl
get-set_field k j v (field i w fs) =
    ground (arith, eq_iff k j, eq_iff k i, eq_iff i j, get-set_field k j v fs)

-- ===== src/ModelRouter.antt =====
-- backend/internal/modelrouter/router.go: profiles of models, and the profile of each capability. The
-- clients of the profiles are the LLM providers, which a profile takes as functions. The profile in a
-- context is "" where there is none.
pub mod Routed
use go_dashboard.Prelude.{
  ℕ, zero, suc, ◌+◌, ◌-◌, ◌*◌, ◌/◌, ◌≤◌, ◌<◌, String, ◌≡◌, refl, sym, ap, ◌∙◌, subst, ◌≢◌, ◌↔◌, ◌⊎◌,
  inl, inr, Bool, true, false, not, ◌&&◌, ◌||◌, Option, none, some, List, [], ◌∷◌, ◌++◌, map, arith,
  ◌==◌, eq_iff, eq_refl, ltb, leb, eqb, if◌then◌else◌, Bool-cases, Option-cases, length, get_elem?,
  select, find, any, count, map_where, length-append, All, All-append, take, length-take-le, chars,
  of_chars, chars-of_chars, ℤ, pos, negsuc, is_pos, is_neg, to_ℕ, eq_ℤ, lt_ℤ, is_blank, trim_space,
  cut_prefix, str_lt, Error, Flaw, Result, ok, err, ltb→lt, lt→ltb, leb→le,
}
use go_dashboard.Prelude.Results.{◌>>=◌, ◌>>◌, refuse_if, >>=-eq-ok, Result-cases}
use go_dashboard.Trigger.{StringMap, get, put}

-- `llm.Status`
pub record ProviderStatus : Type 0 where
  pub available : Bool
  pub model : String
  pub model_available : Bool

pub record Generation : Type 0 where
  pub content : String
  pub model : String

-- `llm.Client`
pub record Client : Type 0 where
  pub status : ProviderStatus
  pub generate : String → Result Generation

pub record Profile : Type 0 where
  pub name : String
  pub provider : String
  pub model : String
  pub client : Option Client

pub record ProfileStatus : Type 0 where
  pub name : String
  pub provider : String
  pub model : String
  pub available : Bool
  pub model_available : Bool
  pub capabilities : List String

pub record Router : Type 0 where
  pub profiles : List Profile
  pub mapping : StringMap

unfoldable pub find_profile : String → List Profile → Option Profile
find_profile name [] = none
find_profile name (p ∷ ps) = if p.name == name then some p else find_profile name ps

abbrev pub has_client : Option Client → Bool
has_client none = false
has_client (some c) = true

abbrev pub has_profile : Option Profile → Bool
has_profile none = false
has_profile (some p) = true

-- The first loop of `New`.
unfoldable pub add_profiles : List Profile → List Profile → Result (List Profile)
add_profiles added [] = ok added
add_profiles added (p ∷ ps) =
    refuse_if (p.name == "" || p.provider == "" || p.model == "" || not (has_client p.client))
      (Error.unknown_profile "invalid profile")
    >> refuse_if (has_profile (find_profile p.name added)) (Error.unknown_profile p.name)
    >> add_profiles (p ∷ added) ps

-- The second loop.
unfoldable pub add_mapping : List Profile → StringMap → StringMap → Result StringMap
add_mapping profiles added [] = ok added
add_mapping profiles added ((capability, profile) ∷ rest) =
    refuse_if (not (has_profile (find_profile profile profiles))) (Error.unknown_profile profile)
    >> add_mapping profiles (put capability profile added) rest

unfoldable pub new : List Profile → StringMap → Result Router
new profiles mapping = do
  known ← add_profiles [] profiles
  routes ← add_mapping known [] mapping
  ok (record { profiles = known; mapping = routes })

abbrev pub profile_or_mapped : String → String → Router → String
profile_or_mapped capability override router =
    if override == "" then get capability router.mapping else override

abbrev pub known_profile : String → Option Profile → Result Profile
known_profile name none = err (Error.unknown_profile name)
known_profile name (some p) = ok p

unfoldable pub resolve : String → String → Router → Result Profile
resolve capability override router =
    let name = profile_or_mapped capability override router in
    refuse_if (name == "") (Error.unknown_mapping capability)
    >> known_profile name (find_profile name router.profiles)

-- A method of a nil interface panics.
abbrev pub generate_with : String → Option Client → Result Generation
generate_with prompt none = err (Error.panic "nil client")
generate_with prompt (some c) = c.generate prompt

-- `boundClient.Generate`, with the profile of its context.
unfoldable pub bound_generate : Router → String → String → String → Result Generation
bound_generate router capability context_profile prompt =
    resolve capability context_profile router >>= λ p. generate_with prompt p.client

abbrev pub no_status : ProviderStatus
no_status = record { available = false; model = ""; model_available = false }

abbrev pub status_with : Option Client → Result ProviderStatus
status_with none = err (Error.panic "nil client")
status_with (some c) = ok c.status

-- `boundClient.Status`
unfoldable pub bound_status : Router → String → Result ProviderStatus
bound_status router capability = elim (resolve capability "" router) [
  | ok p ↦ status_with p.client
  | err e ↦ ok no_status
]

unfoldable pub insert_string : String → List String → List String
insert_string s [] = s ∷ []
insert_string s (t ∷ ts) = if str_lt t s then t ∷ insert_string s ts else s ∷ t ∷ ts

-- The capabilities of a profile, sorted.
unfoldable pub capabilities_of : String → StringMap → List String
capabilities_of profile [] = []
capabilities_of profile ((capability, p) ∷ rest) =
    let more = capabilities_of profile rest in
    if p == profile then insert_string capability more else more

unfoldable pub insert_profile : Profile → List Profile → List Profile
insert_profile p [] = p ∷ []
insert_profile p (q ∷ qs) = if str_lt q.name p.name then q ∷ insert_profile p qs else p ∷ q ∷ qs

unfoldable pub sorted_profiles : List Profile → List Profile
sorted_profiles [] = []
sorted_profiles (p ∷ ps) = insert_profile p (sorted_profiles ps)

unfoldable pub statuses_of : StringMap → List Profile → Result (List ProfileStatus)
statuses_of mapping [] = ok []
statuses_of mapping (p ∷ ps) = do
  status ← status_with p.client
  rest ← statuses_of mapping ps
  ok (
      record {
        name = p.name;
        provider = p.provider;
        model = p.model;
        available = status.available;
        model_available = status.model_available;
        capabilities = capabilities_of p.name mapping;
      }
      ∷ rest)

unfoldable pub statuses : Router → Result (List ProfileStatus)
statuses router = statuses_of router.mapping (sorted_profiles router.profiles)

-- ===== src/ModelRouter/Routed.antt =====
-- What a router that `New` accepts resolves (backend/internal/modelrouter/router.go).
use go_dashboard.Prelude.{
  any, sym, ap, ◌∙◌, ◌||◌, String, ◌≡◌, refl, subst, ◌≢◌, inl, inr, Bool, true, false, not, Option,
  none, some, List, [], ◌∷◌, arith, ◌==◌, eq_iff, if◌then◌else◌, Bool-cases, Error, ok,
}
use go_dashboard.Prelude.Results.{◌>>◌, refuse_if, >>=-eq-ok}
use go_dashboard.Trigger.{StringMap, get, put, get-put}
use go_dashboard.ModelRouter.{
  Profile, Router, find_profile, has_profile, add_profiles, add_mapping, new, resolve,
  known_profile,
}

-- Every capability that is mapped has a profile of the name that it is mapped to.
IsRouted : List Profile → StringMap → Type 0
IsRouted profiles mapping =
    (capability : String)
    → get capability mapping ≢ ""
    → has_profile (find_profile (get capability mapping) profiles) ≡ true

refused-not : (b : Bool) (e : Error) (x : Unit {0}) → refuse_if (not b) e ≡ ok x → b ≡ true
refused-not true e x h = refl
refused-not false e x h = cc

add_mapping-IsRouted :
    (profiles : List Profile) (added mapping routes : StringMap)
    → IsRouted profiles added
    → add_mapping profiles added mapping ≡ ok routes
    → IsRouted profiles routes
unfolding add_mapping IsRouted
add_mapping-IsRouted profiles added [] routes r h = subst (IsRouted profiles) same r
  where
    same : added ≡ routes
    same = cc
add_mapping-IsRouted profiles added ((c, p) ∷ mapping) routes r h =
    let (x, passed, rest) =
      >>=-eq-ok (refuse_if (not (has_profile (find_profile p profiles))) _) _ h in
    add_mapping-IsRouted profiles (put c p added) mapping routes (here (refused-not _ _ x passed))
      rest
  where
    here : has_profile (find_profile p profiles) ≡ true → IsRouted profiles (put c p added)
    here known d = rw (get-put c d p added) (split (c == d))
      where
        split :
            (b : Bool)
            → (if b then p else get d added) ≢ ""
            → has_profile (find_profile (if b then p else get d added) profiles) ≡ true
        split true _ = known
        split false n = r d n

find_profile-name :
    (name : String) (profiles : List Profile) (p : Profile)
    → find_profile name profiles ≡ some p
    → p.name ≡ name
unfolding find_profile
find_profile-name name [] p h = cc
find_profile-name name (q ∷ qs) p h =
    ground (arith, eq_iff q.name name, find_profile-name name qs p)

found :
    (name : String) (profiles : List Profile) (e : Error)
    → name == "" ≡ false
    → has_profile (find_profile name profiles) ≡ true
    → (p : Profile) × ((refuse_if (name == "") e >> known_profile name (find_profile name profiles))
        ≡ ok p)
      × (p.name ≡ name)
found name profiles e filled known = rw filled (go (find_profile name profiles) refl known)
  where
    go :
        (o : Option Profile)
        → find_profile name profiles ≡ o
        → has_profile o ≡ true
        → (p : Profile) × (known_profile name o ≡ ok p) × (p.name ≡ name)
    go none same h = cc
    go (some p) same h = (p, refl, find_profile-name name profiles p same)

-- A Go map has a key once.
abbrev has_key : String → StringMap → Bool
has_key k m = any (λ (entry : String × String). entry.0 == k) m

abbrev pub IsMap : StringMap → Type 0
IsMap [] = Unit
IsMap ((k, v) ∷ m) = (has_key k m ≡ false) × IsMap m

get-missing : (c : String) (m : StringMap) → has_key c m ≡ false → get c m ≡ ""
unfolding any get
get-missing c [] h = refl
get-missing c ((k, v) ∷ m) h = ground (arith, get-missing c m)

present : (c : String) (m : StringMap) → (if has_key c m then get c m else "") ≡ get c m
present c m = split (has_key c m) refl
  where
    split : (b : Bool) → has_key c m ≡ b → (if b then get c m else "") ≡ get c m
    split true e = refl
    split false e = sym (get-missing c m e)

one_more :
    (c k v : String) (added m : StringMap)
    → has_key k m ≡ false
    → (if has_key c m then get c m else get c (put k v added))
      ≡ (if has_key c ((k, v) ∷ m) then get c ((k, v) ∷ m) else get c added)
unfolding any get
one_more c k v added m free = rw (get-put k c v added) (split (k == c) refl)
  where
    split :
        (b : Bool)
        → k == c ≡ b
        → (if has_key c m then get c m else (if b then v else get c added))
          ≡ (if b || has_key c m then (if b then v else get c m) else get c added)
    split true e = rw (subst (λ x. has_key x m ≡ false) ((eq_iff k c).0 e) free) refl
    split false e = refl

add_mapping-get :
    (profiles : List Profile) (added mapping routes : StringMap) (c : String)
    → IsMap mapping
    → add_mapping profiles added mapping ≡ ok routes
    → get c routes ≡ (if has_key c mapping then get c mapping else get c added)
unfolding add_mapping any get
add_mapping-get profiles added [] routes c i h = ap (get c) (sym same)
  where
    same : added ≡ routes
    same = cc
add_mapping-get profiles added ((k, v) ∷ m) routes c i h =
    let (x, passed, rest) =
      >>=-eq-ok (refuse_if (not (has_profile (find_profile v profiles))) _) _ h in
    add_mapping-get profiles (put k v added) m routes c i.1 rest ∙ one_more c k v added m i.0

-- A router that `New` accepts resolves each capability that the given mapping, in which a key stands once, maps
-- to a name that is not empty, without an override, to a profile of that name.
pub resolve-new :
    (profiles : List Profile) (mapping : StringMap) (router : Router) (capability : String)
    → IsMap mapping
    → new profiles mapping ≡ ok router
    → get capability mapping ≢ ""
    → (p : Profile) × (resolve capability "" router ≡ ok p) × (p.name ≡ get capability mapping)
unfolding new IsRouted resolve get
resolve-new profiles mapping router capability i h n =
    let (known, added, rest) = >>=-eq-ok (add_profiles [] profiles) _ h in
    let (routes, mapped, made) = >>=-eq-ok (add_mapping known [] mapping) _ rest in
    let same : record { profiles = known; mapping = routes } ≡ router = cc in
    let routed = add_mapping-IsRouted known [] mapping routes (λ c m. absurd (m refl)) mapped in
    let routes' = subst (λ (r : Router). IsRouted r.profiles r.mapping) same routed in
    let given : get capability routes ≡ get capability mapping =
      add_mapping-get known [] mapping routes capability i mapped ∙ present capability mapping in
    let kept : get capability router.mapping ≡ get capability mapping =
      subst (λ (r : Router). get capability r.mapping ≡ get capability mapping) same given in
    let name = get capability router.mapping in
    let filled : name ≢ "" = λ e. n (sym kept ∙ e) in
    let (p, resolved, called) =
      found name router.profiles (Error.unknown_mapping capability)
        (elim (Bool-cases (name == "")) [
          | inl e ↦ absurd (filled ((eq_iff name "").0 e))
          | inr e ↦ e
        ])
        (routes' capability filled) in
    (p, resolved, called ∙ kept)

-- ===== src/Workflow/Registry/Lookup.antt =====
-- What `Resolve` finds after `Register` (backend/internal/workflow/registry.go).
use go_dashboard.Prelude.{
  String, ◌≡◌, refl, ap, Bool, true, false, ◌&&◌, some, [], ◌∷◌, arith, ◌==◌, eq_iff, if◌then◌else◌,
  ℤ, pos, eq_ℤ, lt_ℤ, ok,
}
use go_dashboard.Workflow.Definition.{Definition}
use go_dashboard.Workflow.Registry
use go_dashboard.Workflow.Registry.{
  Registry, Versions, register, resolve, known, version_of, versions_of, set_versions,
}

versions_of-set_versions :
    (k j : String) (versions : Versions) (registry : Registry)
    → versions_of j (set_versions k versions registry)
      ≡ (if k == j then versions else versions_of j registry)
unfolding versions_of set_versions
versions_of-set_versions k j versions [] = refl
versions_of-set_versions k j versions ((i, old) ∷ rest) =
    ground (arith, eq_iff k j, eq_iff i k, eq_iff i j, versions_of-set_versions k j versions rest)

resolve-known :
    (id : String) (version : ℤ) (registry : Registry)
    → lt_ℤ (pos 0) version ≡ true
    → resolve id version registry ≡ known id (version_of version (versions_of id registry))
unfolding resolve Registry.resolve_in version_of
resolve-known id version registry h = here (versions_of id registry)
  where
    here :
        (versions : Versions)
        → Registry.resolve_in id version versions ≡ known id (version_of version versions)
    here [] = refl
    here (v ∷ vs) = rw h refl

registered :
    (d : Definition) (registry new : Registry)
    → register d registry ≡ ok new
    → new ≡ set_versions d.id ((d.version, d) ∷ versions_of d.id registry) registry
unfolding register
registered d registry new h = ground arith

-- After a definition is registered, resolving an ID at a version that is given, that is greater than 0, gives
-- the definition where both are its own, and what it gave before where they are not.
pub resolve-register :
    (d : Definition) (registry new : Registry) (id : String) (version : ℤ)
    → register d registry ≡ ok new
    → lt_ℤ (pos 0) version ≡ true
    → resolve id version new
      ≡ (if d.id == id && eq_ℤ d.version version then ok d else resolve id version registry)
unfolding version_of
resolve-register d registry new id version h k =
    rw
      (
        resolve-known id version new k,
        resolve-known id version registry k,
        registered d registry new h,
        versions_of-set_versions d.id id ((d.version, d) ∷ versions_of d.id registry) registry,
      )
      (chosen (d.id == id) (versions_of d.id registry) (versions_of id registry)
        λ e. ap (λ k. versions_of k registry) ((eq_iff d.id id).0 e))
  where
    added :
        (b : Bool) (old : Versions)
        → known id (if b then some d else version_of version old)
          ≡ (if b then ok d else known id (version_of version old))
    added true old = refl
    added false old = refl

    chosen :
        (b : Bool) (same old : Versions)
        → (b ≡ true → same ≡ old)
        → known id (version_of version (if b then (d.version, d) ∷ same else old))
          ≡ (if b && eq_ℤ d.version version then ok d else known id (version_of version old))
    chosen true same old e = rw (e refl) (added (eq_ℤ d.version version) old)
    chosen false same old e = refl

-- ===== src/Tenants/Laws.antt =====
-- What the repository promises (internal/tenants/tenants.go).
use mathlib.Core.Option.{get_or}
use tide.Prelude.{
  String, Bool, true, false, ◌≡◌, refl, Option, none, some, [], ◌∷◌, ◌++◌, lookup,
  lookup-insert_self,
}
use tide.Tenants.{
  Repository, Vehicle, ProviderIdentity, ok, add_identity, resolve_vehicle, vehicle, identities_of,
  vk, provider_key, unknown_vehicle, missing_field, registered, is_incomplete, unless, or_fail,
  ◌>>=◌, ◌>>◌,
}

add_identity-eq_ok :
    (tenant : String) (id : ProviderIdentity) (m : Repository) {m' : Repository} (bad : Bool)
    (found : Option Vehicle)
    → (unless bad missing_field
        >> (or_fail found unknown_vehicle >>= λ v. ok (registered tenant id v m)))
      ≡ ok m'
    → (v : Vehicle) × (found ≡ some v) × (registered tenant id v m ≡ m')
add_identity-eq_ok tenant id m true found h = cc
add_identity-eq_ok tenant id m false none h = cc
add_identity-eq_ok tenant id m false (some v) h = (v, refl, cc)

module _ (tenant : String) (id : ProviderIdentity) (m m' : Repository)
    (added : add_identity tenant id m ≡ ok m') where
  abbrev key : String
  key = vk tenant id.vehicle_id

  added_vehicle : (v : Vehicle) × (lookup key m.vehicles ≡ some v) × (registered tenant id v m ≡ m')
  unfolding add_identity
  added_vehicle =
      add_identity-eq_ok tenant id m (is_incomplete tenant id) (lookup key m.vehicles) added

  -- An identity that was added resolves to the vehicle that it names, which the repository knows in that
  -- tenant, and is listed behind the identities that the vehicle had before: a vehicle holds several.
  pub resolve_vehicle-add_identity :
      (v : Vehicle) × (vehicle tenant id.vehicle_id m ≡ ok v)
      × (resolve_vehicle tenant id.provider id.provider_id m' ≡ ok v)
      × (identities_of tenant id.vehicle_id m' ≡ identities_of tenant id.vehicle_id m ++ (id ∷ []))
  unfolding resolve_vehicle vehicle identities_of
  resolve_vehicle-add_identity =
      let (v, found, done) = added_vehicle in
      let pk = provider_key tenant id.provider id.provider_id in
      let ids = get_or (lookup key m.identities) [] ++ (id ∷ []) in
      (
        v,
        rw found,
        rw (← done, lookup-insert_self pk v m.by_provider),
        rw (← done, lookup-insert_self key ids m.identities),
      )

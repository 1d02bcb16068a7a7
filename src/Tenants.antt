-- ===== src/Tenants.antt =====
-- internal/tenants/tenants.go: `MemoryRepository`.
pub mod Laws
use mathlib.Core.Option.{get_or}
use tide.Prelude.{
  String, Bool, ◌||◌, if◌then◌else◌, ◌==◌, ◌<>◌, Option, none, some, ℤ, List, [], ◌∷◌, ◌++◌, Assoc,
  lookup, insert, is_some, not,
}

pub record Tenant : Type 0 where
  pub id : String
  pub name : String

pub record Fleet : Type 0 where
  pub id : String
  pub tenant_id : String
  pub name : String

pub record Vehicle : Type 0 where
  pub id : String
  pub tenant_id : String
  pub fleet_id : String
  pub name : String
  pub expected_cadence_secs : ℤ

pub record Device : Type 0 where
  pub id : String
  pub tenant_id : String
  pub vehicle_id : String
  pub name : String

pub record ProviderIdentity : Type 0 where
  pub vehicle_id : String
  pub provider : String
  pub provider_id : String

pub record Repository : Type 0 where
  pub tenants : Assoc Tenant
  pub fleets : Assoc Fleet
  pub vehicles : Assoc Vehicle
  pub devices : Assoc Device
  pub identities : Assoc (List ProviderIdentity)
  pub by_provider : Assoc Vehicle

pub data Error : Type 0 where
  missing_field unknown_tenant unknown_vehicle no_vehicle : Error

pub data Result {ℓ} (A : Type ℓ) : Type ℓ where
  ok : A → Result A
  err : Error → Result A

infixl 5 ◌>>=◌ ◌>>◌
abbrev ◌>>=◌ {ℓ κ} : {A : Type ℓ} {B : Type κ} → Result A → (A → Result B) → Result B
ok a >>= f = f a
err e >>= f = err e

abbrev ◌>>◌ {ℓ} : {B : Type ℓ} → Result (Unit {0}) → Result B → Result B
m >> k = m >>= λ _. k

-- `if bad { return err }`
abbrev unless : Bool → Error → Result (Unit {0})
unless bad e = if bad then err e else ok tt

abbrev or_fail {ℓ} : {A : Type ℓ} → Option A → Error → Result A
or_fail none e = err e
or_fail (some a) e = ok a

abbrev is_empty : String → Bool
is_empty s = s == ""

unfoldable pub new_repository : Repository
new_repository = record {
  tenants = [];
  fleets = [];
  vehicles = [];
  devices = [];
  identities = [];
  by_provider = [];
}

unfoldable pub vk : String → String → String
vk tenant_id id = tenant_id <> "/" <> id

unfoldable pub provider_key : String → String → String → String
provider_key tenant_id provider provider_id = tenant_id <> "/" <> provider <> "/" <> provider_id

unfoldable pub create_tenant : Tenant → Repository → Result Repository
create_tenant t m = do
  unless (is_empty t.id) missing_field
  ok (record m { tenants = insert t.id t m.tenants })

unfoldable pub create_fleet : Fleet → Repository → Result Repository
create_fleet f m = do
  unless (is_empty f.tenant_id || is_empty f.id) missing_field
  _ ← or_fail (lookup f.tenant_id m.tenants) unknown_tenant
  ok (record m { fleets = insert (vk f.tenant_id f.id) f m.fleets })

unfoldable pub create_vehicle : Vehicle → Repository → Result Repository
create_vehicle v m = do
  unless (is_empty v.tenant_id || is_empty v.id) missing_field
  _ ← or_fail (lookup v.tenant_id m.tenants) unknown_tenant
  ok (record m { vehicles = insert (vk v.tenant_id v.id) v m.vehicles })

unfoldable pub create_device : Device → Repository → Result Repository
create_device d m = do
  unless (is_empty d.tenant_id || is_empty d.id || is_empty d.vehicle_id) missing_field
  ok (record m { devices = insert (vk d.tenant_id d.id) d m.devices })

-- The two writes of `AddIdentity`, for the vehicle that was found.
abbrev pub registered : String → ProviderIdentity → Vehicle → Repository → Repository
registered tenant_id id v m =
    let k = vk tenant_id id.vehicle_id in
    record m {
      identities = insert k (get_or (lookup k m.identities) [] ++ (id ∷ [])) m.identities;
      by_provider = insert (provider_key tenant_id id.provider id.provider_id) v m.by_provider;
    }

abbrev pub is_incomplete : String → ProviderIdentity → Bool
is_incomplete tenant_id id =
    is_empty tenant_id || is_empty id.vehicle_id || is_empty id.provider || is_empty id.provider_id

unfoldable pub add_identity : String → ProviderIdentity → Repository → Result Repository
add_identity tenant_id id m = do
  unless (is_incomplete tenant_id id) missing_field
  v ← or_fail (lookup (vk tenant_id id.vehicle_id) m.vehicles) unknown_vehicle
  ok (registered tenant_id id v m)

unfoldable pub resolve_vehicle : String → String → String → Repository → Result Vehicle
resolve_vehicle tenant_id provider provider_id m =
    or_fail (lookup (provider_key tenant_id provider provider_id) m.by_provider) no_vehicle

unfoldable pub identities_of : String → String → Repository → List ProviderIdentity
identities_of tenant_id vehicle_id m = get_or (lookup (vk tenant_id vehicle_id) m.identities) []

unfoldable pub vehicle : String → String → Repository → Result Vehicle
vehicle tenant_id vehicle_id m =
    or_fail (lookup (vk tenant_id vehicle_id) m.vehicles) unknown_vehicle

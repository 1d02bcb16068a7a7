-- ===== src/Webhooks/Ssrf.antt =====
-- internal/webhooks/ssrf.go: which addresses a webhook may be sent to.
pub mod Laws
use tide.Prelude.{
  ℕ, String, Bool, true, false, not, ◌&&◌, ◌||◌, if◌then◌else◌, ◌==◌, any, Option, none, some, List,
  [], ◌∷◌,
}

-- `url.URL`
pub record Url : Type 0 where
  pub scheme : String
  pub host : String
  -- `Hostname()`
  pub hostname : String
  pub has_user : Bool

-- What is taken from Go's libraries: `net.IP` is a type `Ip` with its predicates.
pub record Resolver (Ip : Type 0) : Type 0 where
  -- `url.Parse`
  pub parse : String → Option Url
  -- `LookupIPAddr`, `none` on an error
  pub lookup_ip : String → Option (List Ip)
  pub to_lower : String → String
  -- `strings.TrimSuffix(s, ".")`
  pub trim_dot : String → String
  pub is_loopback : Ip → Bool
  pub is_unspecified : Ip → Bool
  pub is_multicast : Ip → Bool
  pub is_link_local_unicast : Ip → Bool
  pub is_link_local_multicast : Ip → Bool
  pub is_global_unicast : Ip → Bool
  -- `To4`
  pub to_4 : Ip → Option Ip
  -- the range of a CIDR notation and `IPNet.Contains`
  pub contains : String → Ip → Bool

pub data Blocked : Type 0 where
  invalid_url bad_scheme userinfo metadata unresolvable not_public : Blocked

is_metadata_host : String → Bool
is_metadata_host h =
    any (λ m. m == h)
      ("metadata.google.internal" ∷ "metadata.google.internal." ∷ "instance-data"
        ∷ "instance-data-compute" ∷ "169.254.169.254" ∷ "fd00:ec2::254" ∷ [])

abbrev pub private_ranges : List String
private_ranges =
    "10.0.0.0/8" ∷ "172.16.0.0/12" ∷ "192.168.0.0/16" ∷ "169.254.0.0/16" ∷ "fc00::/7" ∷ "fe80::/10"
    ∷ []

module _ {Ip : Type 0} (net : Resolver Ip) where
  open net use {
    parse, lookup_ip, to_lower, trim_dot, is_loopback, is_unspecified, is_multicast,
    is_link_local_unicast, is_link_local_multicast, is_global_unicast, to_4, contains,
  }

  abbrev pub normal : Option Ip → Ip → Ip
  normal none ip = ip
  normal (some v4) ip = v4

  unfoldable pub is_private : Ip → Bool
  is_private ip = any (λ n. contains n (normal (to_4 ip) ip)) private_ranges

  abbrev pub is_special : Ip → Bool
  is_special ip =
      is_loopback ip
      || is_unspecified ip
      || is_multicast ip
      || is_link_local_unicast ip
      || is_link_local_multicast ip

  unfoldable pub public_ip : Ip → Bool → Bool
  public_ip ip allow_private =
      if is_special ip
      then allow_private && (is_loopback ip || is_unspecified ip)
      else if not allow_private && not (is_global_unicast ip)
      then false
      else not (not allow_private && is_private ip)

  -- The addresses that a host resolves to, each of which must be public: at least one. The same test is
  -- made again when a connection is dialled.
  unfoldable pub check_addresses : Bool → Option (List Ip) → Option Blocked
  check_addresses allow_private none = some unresolvable
  check_addresses allow_private (some []) = some unresolvable
  check_addresses allow_private (some (ip ∷ ips)) =
      if any (λ a. not (public_ip a allow_private)) (ip ∷ ips) then some not_public else none

  check_url : Bool → Url → Option Blocked
  unfolding is_metadata_host check_addresses
  check_url allow_private u =
      if u.host == ""
      then some invalid_url
      else if not (u.scheme == "http") && not (u.scheme == "https")
      then some bad_scheme
      else if u.has_user
      then some userinfo
      else if is_metadata_host (to_lower (trim_dot u.hostname)) || is_metadata_host u.hostname
      then some metadata
      else check_addresses allow_private (lookup_ip u.hostname)

  -- `ValidateURL`
  unfoldable pub validate_url : String → Bool → Option Blocked
  unfolding check_url
  validate_url raw allow_private = elim (parse raw) [
    | none ↦ some invalid_url
    | some u ↦ check_url allow_private u
  ]

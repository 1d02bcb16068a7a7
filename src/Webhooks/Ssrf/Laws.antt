-- ===== src/Webhooks/Ssrf/Laws.antt =====
-- What an accepted address is (internal/webhooks/ssrf.go).
use tide.Prelude.{
  String, Bool, true, false, not, ◌&&◌, ◌||◌, ◌≡◌, ◌≢◌, ◌⊎◌, refl, sym, ◌∙◌, arith, eq_iff, ◌==◌,
  if◌then◌else◌, any, All, All-mono, Option, none, some, List, [], ◌∷◌, Bool-cases, Option-cases,
  inl, inr,
}
use tide.Webhooks.Ssrf.{
  Resolver, Url, Blocked, validate_url, public_ip, is_private, check_addresses, check_url,
  is_metadata_host, invalid_url, bad_scheme, userinfo, metadata,
}

any-All {ℓ} :
    {A : Type ℓ} (p : A → Bool) (xs : List A)
    → any (λ a. not (p a)) xs ≡ false
    → All (λ a. p a ≡ true) xs
any-All p [] h = tt
any-All p (x ∷ xs) h = elim (Bool-cases (p x)) [
  | inl good ↦ (good, any-All p xs (ground (arith, h, good)))
  | inr bad ↦ absurd (ground (arith, h, bad))
]

-- A chain of refusals that refuses nothing.
all_pass :
    (no_host http https user metadata_host : Bool) (found : Option Blocked)
    → (if no_host
        then some invalid_url
        else if not http && not https
        then some bad_scheme
        else if user
        then some userinfo
        else if metadata_host
        then some metadata
        else found)
      ≡ none
    → ((http ≡ true) ⊎ (https ≡ true)) × (user ≡ false) × (found ≡ none)
all_pass no_host http https user metadata_host found h = ground (arith, h)

module _ {Ip : Type 0} (net : Resolver Ip) where
  -- Not of this machine, not of its links, and not of a private range.
  pub record IsPublic (ip : Ip) : Type 0 where
    pub not_loopback : net.is_loopback ip ≡ false
    pub not_unspecified : net.is_unspecified ip ≡ false
    pub not_link_local : net.is_link_local_unicast ip ≡ false
    pub global : net.is_global_unicast ip ≡ true
    pub not_private : is_private net ip ≡ false

  public_ip-IsPublic : (ip : Ip) → public_ip net ip false ≡ true → IsPublic ip
  unfolding public_ip
  public_ip-IsPublic ip h = ground (arith, h)

  pub check_addresses-IsPublic :
      (found : Option (List Ip))
      → check_addresses net false found ≡ none
      → (ips : List Ip) × (found ≡ some ips) × (ips ≢ []) × All IsPublic ips
  unfolding check_addresses
  check_addresses-IsPublic none h = absurd (cc h)
  check_addresses-IsPublic (some []) h = absurd (cc h)
  check_addresses-IsPublic (some (ip ∷ ips)) h =
      let shut = any (λ a. not (public_ip net a false)) (ip ∷ ips) in
      elim (Bool-cases shut) [
        | inl bad ↦ absurd (ground (arith, h, bad))
        | inr good ↦ (
          ip ∷ ips,
          refl,
          (λ e. cc e),
          All-mono (λ a. public_ip net a false ≡ true) IsPublic (ip ∷ ips) public_ip-IsPublic
              (any-All (λ a. public_ip net a false) (ip ∷ ips) good),
        )
      ]

  check_url-none :
      (u : Url)
      → check_url net false u ≡ none
      → ((u.scheme ≡ "http") ⊎ (u.scheme ≡ "https"))
        × (u.has_user ≡ false)
        × (check_addresses net false (net.lookup_ip u.hostname) ≡ none)
  unfolding check_url
  check_url-none u h =
      let (scheme, user, resolved) =
        all_pass (u.host == "") (u.scheme == "http") (u.scheme == "https") u.has_user
          (is_metadata_host (net.to_lower (net.trim_dot u.hostname)) || is_metadata_host u.hostname)
          (check_addresses net false (net.lookup_ip u.hostname)) h in
      (
        elim scheme [
          | inl e ↦ inl ((eq_iff u.scheme "http").0 e)
          | inr e ↦ inr ((eq_iff u.scheme "https").0 e)
        ],
        user,
        resolved,
      )

  -- In production, where no private address is allowed, an address is accepted only if it parses, its
  -- scheme is http or https, it names no user, and its host resolves, to public addresses only.
  pub validate_url-IsPublic :
      (raw : String)
      → validate_url net raw false ≡ none
      → (u : Url) × (ips : List Ip) × (net.parse raw ≡ some u)
        × ((u.scheme ≡ "http") ⊎ (u.scheme ≡ "https"))
        × (u.has_user ≡ false)
        × (net.lookup_ip u.hostname ≡ some ips)
        × (ips ≢ [])
        × All IsPublic ips
  unfolding validate_url
  validate_url-IsPublic raw h = elim (Option-cases (net.parse raw)) [
    | inl bad ↦ absurd (ground (arith, h, bad))
    | inr (u, parsed) ↦
        let opened : validate_url net raw false ≡ check_url net false u =
          rw (parsed, validate_url) refl in
        let (scheme, user, resolved) = check_url-none u (sym opened ∙ h) in
        let (ips, found, some_ip, public) =
          check_addresses-IsPublic (net.lookup_ip u.hostname) resolved in
        (u, ips, parsed, scheme, user, found, some_ip, public)
  ]

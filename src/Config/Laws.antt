-- ===== src/Config/Laws.antt =====
-- Which configurations are valid (internal/config/config.go).
use tide.Prelude.{
  true, ◌≡◌, ◌≢◌, ◌↔◌, ◌⊎◌, refl, List, [], ◌∷◌, arith, eq_iff, pos, ltb_ℤ, leb_ℤ, Option, none,
  some, subst,
}
use tide.Config.{Config, Host, validate, load, apply_env, loaded, checked, Problem}

module _ (host : Host) where
  open host use {has_prefix, trim_space}

  pub record IsValid (c : Config) : Type 0 where
    pub api_lower : ltb_ℤ (pos 0) c.api_port ≡ true
    pub api_upper : leb_ℤ c.api_port (pos 65535) ≡ true
    pub engine_lower : ltb_ℤ (pos 0) c.engine_port ≡ true
    pub engine_upper : leb_ℤ c.engine_port (pos 65535) ≡ true
    pub ports_differ : c.api_port ≢ c.engine_port
    pub dsn_fits :
        (has_prefix c.postgres_dsn "postgres://" ≡ true)
        ⊎ (has_prefix c.postgres_dsn "postgresql://" ≡ true)
    pub redis_given : trim_space c.redis_addr ≢ ""
    pub nats_fits : has_prefix c.nats_url "nats://" ≡ true
    pub env_known : (c.env ≡ "dev") ⊎ ((c.env ≡ "test") ⊎ (c.env ≡ "prod"))

  validate-nil_of : (c : Config) → IsValid c → validate host c ≡ []
  unfolding validate
  validate-nil_of c v = ground (
    arith,
    eq_iff (trim_space c.redis_addr) "",
    eq_iff c.env "dev",
    eq_iff c.env "test",
    eq_iff c.env "prod",
  )

  validate-IsValid : (c : Config) → validate host c ≡ [] → IsValid c
  unfolding validate
  validate-IsValid c h = ground (
    arith,
    eq_iff (trim_space c.redis_addr) "",
    eq_iff c.env "dev",
    eq_iff c.env "test",
    eq_iff c.env "prod",
  )

  -- `Validate` reports no problem exactly for the valid configurations: both ports lie in 1-65535 and
  -- differ, the URLs have their schemes, the Redis address is not blank, and the environment is known.
  pub validate-nil_iff : (c : Config) → (validate host c ≡ []) ↔ IsValid c
  validate-nil_iff c = (validate-IsValid c, validate-nil_of c)

  checked-loaded :
      (c c' : Config) (problems : List Problem)
      → checked host c problems ≡ loaded c'
      → (problems ≡ []) × (c ≡ c')
  checked-loaded c c' [] h = (refl, cc h)
  checked-loaded c c' (p ∷ ps) h = absurd (cc h)

  -- Whatever the file and the environment say, a configuration that is loaded is valid.
  pub load-IsValid : (file : Option Config) (c : Config) → load host file ≡ loaded c → IsValid c
  unfolding load
  load-IsValid none c h = absurd (cc h)
  load-IsValid (some file) c h =
      let overlaid = apply_env host file in
      let (sound, same) = checked-loaded overlaid c (validate host overlaid) h in
      subst IsValid same (validate-IsValid overlaid sound)

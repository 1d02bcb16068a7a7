-- ===== src/Webhooks/Guard.antt =====
-- `guardedClient` of internal/webhooks/ssrf.go: the checks at every redirect and at every connection.
pub mod Laws
use tide.Prelude.{
  ℕ, ltb, String, Bool, true, false, if◌then◌else◌, Option, none, some, List, Result, ok, err,
}
use tide.Webhooks.Ssrf.{Resolver, Blocked, check_addresses, validate_url}

-- What is taken from Go's net over a world `W`: the resolver, and a dialler with the address of the
-- connection that it makes.
pub record Dialler (Ip W : Type 0) : Type 0 where
  -- the host of `SplitHostPort`
  pub split_host : String → Option String
  -- `LookupIPAddr`
  pub lookup : String → W → Option (List Ip) × W
  -- `DialContext`
  pub dial : String → W → Option Ip × W

pub data DialError : Type 0 where
  bad_address unreachable : DialError
  refused : Blocked → DialError

pub data RedirectError : Type 0 where
  too_many_redirects : RedirectError
  not_valid : Blocked → RedirectError

module _ {Ip : Type 0} (net : Resolver Ip) (allow_private : Bool) where
  abbrev pub redirect_error : Option Blocked → Option RedirectError
  redirect_error none = none
  redirect_error (some b) = some (not_valid b)

  -- `CheckRedirect`, for the number of requests that were made
  unfoldable pub check_redirect : ℕ → String → Option RedirectError
  check_redirect via url =
      if ltb 3 via
      then some too_many_redirects
      else redirect_error (validate_url net url allow_private)

  module _ {W : Type 0} (d : Dialler Ip W) where
    open d use {split_host, lookup, dial}

    abbrev pub dialled : Option Ip × W → Result DialError Ip × W
    dialled (none, w) = (err unreachable, w)
    dialled (some ip, w) = (ok ip, w)

    abbrev pub if_public : String → Option Blocked → W → Result DialError Ip × W
    if_public addr (some b) w = (err (refused b), w)
    if_public addr none w = dialled (dial addr w)

    abbrev pub dial_host : String → Option String → W → Result DialError Ip × W
    dial_host addr none w = (err bad_address, w)
    dial_host addr (some host) w =
        let (found, w') = lookup host w in
        if_public addr (check_addresses net allow_private found) w'

    -- `DialContext` of the transport
    unfoldable pub dial_guarded : String → W → Result DialError Ip × W
    dial_guarded addr w = dial_host addr (split_host addr) w

-- ===== src/Health.antt =====
-- internal/health/checks.go: the probes of the three services, over what their drivers give.
pub mod Laws
use Prim.Native.Char.{code}
use tide.Prelude.{
  String, Bool, true, false, eqb, if◌then◌else◌, ◌<>◌, Option, none, some, List, [], ◌∷◌,
}

pub record Status : Type 0 where
  pub name : String
  -- the field `OK`
  pub fine : Bool
  pub detail : String

-- `CheckPostgres` and `CheckRedis`, by the error of the driver: that of the opening or of the ping.
unfoldable pub check_ping : String → Option String → Status
check_ping name none = record { name = name; fine = true; detail = "reachable" }
check_ping name (some e) = record { name = name; fine = false; detail = e }

-- What follows a prefix, where the text has it.
abbrev pub after_prefix : String → String → Option String
after_prefix String.[] s = some s
after_prefix (String.◌∷◌ c p) String.[] = none
after_prefix (String.◌∷◌ c p) (String.◌∷◌ d s) =
    if eqb (code c) (code d) then after_prefix p s else none

-- What a round gives, by what follows the prefix and by what the next rounds give.
abbrev pub stripped : Option String → String → String
stripped none next = next
stripped (some String.[]) next = next
stripped (some (String.◌∷◌ c s)) next = String.◌∷◌ c s

-- The first loop: the first scheme of the list that the text has, with more behind it, is taken off.
abbrev pub strip : List String → String → String
strip [] s = s
strip (p ∷ ps) s = stripped (after_prefix p s) (strip ps s)

-- The second loop: what stands before the first slash.
abbrev pub until_slash : String → String
until_slash String.[] = ""
until_slash (String.◌∷◌ c s) = if eqb (code c) b'/' then "" else String.◌∷◌ c (until_slash s)

-- `natsURLToHostPort`
unfoldable pub host_port : String → String
host_port url = until_slash (strip ("nats://" ∷ "tls://" ∷ []) url)

-- `CheckNATS`: `connect` is the error of the driver, and `dial` tells whether an address can be dialled.
unfoldable pub check_nats : Option String → (String → Bool) → String → Status
check_nats none dial url = record { name = "nats"; fine = true; detail = "reachable" }
check_nats (some e) dial url = record {
  name = "nats";
  fine = false;
  detail = if dial (host_port url) then e else "unreachable: " <> e;
}

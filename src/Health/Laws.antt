-- ===== src/Health/Laws.antt =====
-- The address that internal/health/checks.go dials.
use Prim.Native.Char.{Char, code}
use text.Mathlib.TextLemmas.{nil-append, cons-append}
use tide.Prelude.{ℕ, String, true, false, ◌≡◌, ◌∙◌, sym, ap, List, some, arith, eqb, ◌<>◌, ◌∷◌, []}
use tide.Health.{until_slash, after_prefix, stripped, strip, host_port}

-- A text without a slash.
abbrev HasNoSlash : String → Type 0
HasNoSlash String.[] = Unit
HasNoSlash (String.◌∷◌ c s) = (eqb (code c) b'/' ≡ false) × HasNoSlash s

slash-append : (path : String) → until_slash ("/" <> path) ≡ ""
slash-append path = ap until_slash (cons-append "/" "" path)

eqb_refl : (n : ℕ) → eqb n n ≡ true
eqb_refl n = ground arith

until_slash_lem : (host path : String) → HasNoSlash host → until_slash (host <> "/" <> path) ≡ host
until_slash_lem String.[] path h = ap until_slash (nil-append ("/" <> path)) ∙ slash-append path
until_slash_lem (String.◌∷◌ c s) path (h, hs) =
    ap until_slash (cons-append c s ("/" <> path))
    ∙ rw h (ap (λ t. String.◌∷◌ c t) (until_slash_lem s path hs))

after_prefix_lem : (p s : String) → after_prefix p (p <> s) ≡ some s
after_prefix_lem String.[] s = ap some (nil-append s)
after_prefix_lem (String.◌∷◌ c p) s =
    ap (after_prefix (String.◌∷◌ c p)) (cons-append c p s)
    ∙ rw (eqb_refl (code c)) (after_prefix_lem p s)

strip_first :
    (p : String) (ps : List String) (c : Char) (s : String)
    → strip (p ∷ ps) (p <> String.◌∷◌ c s) ≡ String.◌∷◌ c s
strip_first p ps c s =
    let next = strip ps (p <> String.◌∷◌ c s) in
    ap (λ o. stripped o next) (after_prefix_lem p (String.◌∷◌ c s))

-- Of a URL of NATS with a path, the probe dials the host and the port.
pub host_port_lem :
    (c : Char) (host path : String)
    → HasNoSlash (String.◌∷◌ c host)
    → host_port ("nats://" <> String.◌∷◌ c host <> "/" <> path) ≡ String.◌∷◌ c host
unfolding host_port
host_port_lem c host path h =
    let whole = cons-append c host ("/" <> path) in
    ap (λ s. until_slash (strip ("nats://" ∷ "tls://" ∷ []) ("nats://" <> s))) whole
    ∙ ap until_slash (strip_first "nats://" ("tls://" ∷ []) c (host <> "/" <> path))
    ∙ ap until_slash (sym whole)
    ∙ until_slash_lem (String.◌∷◌ c host) path h

-- ===== src/Schemas/Runtime.antt =====
-- What the program takes from Go's floats and standard library, as an interface: IEEE comparisons and
-- arithmetic on `float64`, `math`, and the formatting and hashing of texts. No law is assumed of it here.
use tide.Prelude.{ℕ, String, Bool, ℤ, Option}
use tide.Schemas.Clock.{Time}
use tide.Schemas.Payload.{Fields}

pub record Runtime (F : Type 0) : Type 0 where
  -- `a < b`, `a <= b`, `a == b`
  pub flt : F → F → Bool
  pub fle : F → F → Bool
  pub feq : F → F → Bool
  pub fadd : F → F → F
  pub fsub : F → F → F
  pub fmul : F → F → F
  pub fdiv : F → F → F
  -- an integer constant or conversion
  pub of_int : ℤ → F
  -- a decimal constant: the first number over ten to the power of the second
  pub decimal : ℕ → ℕ → F
  pub pi : F
  pub sin : F → F
  pub cos : F → F
  pub asin : F → F
  pub sqrt : F → F
  pub round : F → F
  -- `t.UTC().Format(time.RFC3339Nano)`
  pub rfc3339_nano : Time → String
  -- `%d`
  pub print_int : ℤ → String
  -- `%v` of a float
  pub print_float : F → String
  -- `hex.EncodeToString(sha256.Sum256(json.Marshal(m))[:8])`
  pub digest : Option (Fields F) → String
  -- `a < b` on texts
  pub str_lt : String → String → Bool

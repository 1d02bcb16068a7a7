-- ===== src/Prelude/Maps.antt =====
-- Maps with text keys, as association lists: Go's `m[k]` and `m[k] = v`.
use Prim.Native.String.{String}
use mathlib.Core.Path.{◌≡◌, refl}
use mathlib.Core.Logic.{◌≢◌}
use mathlib.Core.Option.{Option, none, some}
use mathlib.Core.List.{List, [], ◌∷◌}
use native.Mathlib.Omega.{arith}
use text.Mathlib.Text.{◌==◌}
use text.Mathlib.TextEquality.{eq_iff}
use text.Mathlib.TextPositions.{eq_refl}
use tide.Prelude.Tests.{if◌then◌else◌}

abbrev pub Assoc {ℓ} : Type ℓ → Type ℓ
Assoc V = List (String × V)

module _ {ℓ} {V : Type ℓ} where
  unfoldable pub lookup : String → Assoc V → Option V
  lookup key [] = none
  lookup key ((first, val) ∷ rest) = if first == key then some val else lookup key rest

  -- An entry with the key is replaced where it stands.
  unfoldable pub insert : String → V → Assoc V → Assoc V
  insert key new [] = (key, new) ∷ []
  insert key new ((first, val) ∷ rest) =
      if first == key then (key, new) ∷ rest else (first, val) ∷ insert key new rest

  -- The law of a map: reading after writing.
  pub lookup-insert :
      (key other : String) (new : V) (m : Assoc V)
      → lookup other (insert key new m) ≡ (if key == other then some new else lookup other m)
  unfolding lookup insert
  lookup-insert key other new [] = refl
  lookup-insert key other new ((first, val) ∷ rest) = ground (
    arith,
    lookup-insert key other new rest,
    eq_iff first other,
    eq_iff first key,
    eq_iff key other,
  )

  pub lookup-insert_self : (k : String) (v : V) (m : Assoc V) → lookup k (insert k v m) ≡ some v
  lookup-insert_self k v m = simp (lookup-insert, eq_refl)

  pub lookup-insert_ne :
      (k j : String) (v : V) (m : Assoc V) → k ≢ j → lookup j (insert k v m) ≡ lookup j m
  lookup-insert_ne k j v m h = rw (lookup-insert k j v m) (ground (arith, eq_iff k j))

  -- Every key stands once.
  abbrev pub Unique : Assoc V → Type ℓ
  Unique [] = Unit
  Unique ((k, _) ∷ m) = (lookup k m ≡ none) × Unique m

  pub insert-Unique : (k : String) (v : V) (m : Assoc V) → Unique m → Unique (insert k v m)
  unfolding lookup insert
  insert-Unique k v [] u = (refl, tt)
  insert-Unique k v ((j, w) ∷ m) (fresh, u) =
      ground (arith, eq_iff j k, eq_iff k j, insert-Unique k v m u, lookup-insert k j v m)

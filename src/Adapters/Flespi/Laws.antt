-- ===== src/Adapters/Flespi/Laws.antt =====
-- The paths and the messages of flespi (adapters/flespi/flespi.go).
use Prim.Native.Char.{Char, code}
use text.Mathlib.TextEquality.{Char-path}
use text.Mathlib.TextLemmas.{append_assoc, append-nil, append_cancel_left, nil-append, cons-append}
use mathlib.Core.List
use tide.Prelude.{
  String, ◌≡◌, ◌≢◌, refl, subst, sym, ap, ◌∙◌, arith, eqb, ◌<>◌, ◌==◌, Option, none, some, List, [],
  ◌∷◌, ◌++◌, ok, ◌⊎◌, Bool-cases, inl, inr, eq_iff, split, split_from,
}
use tide.Schemas.Clock.{Time}
use tide.Schemas.Payload.{Fields, num, object, get}
use tide.Schemas.Runtime.{Runtime}
use tide.Schemas.Telemetry.{Telemetry, Invalid, validate}
use tide.Schemas.Telemetry.Laws.{IsCanonical, validate-none_iff}
use tide.Adapters.Flespi.{
  split_loop, split_path, join_rest, join_keys, walk, walk_all, num_at, normalized, checked,
  located, message_to_telemetry, as_text, as_num?,
}

split_loop_lem :
    (out : List String) (cur p : String) → split_loop out cur p ≡ out ++ split_from b'.' cur p
unfolding split_loop split_from
split_loop_lem out cur String.[] = refl
split_loop_lem out cur (String.◌∷◌ c p) = elim (Bool-cases (eqb (code c) b'.')) [
  | inl dot ↦
      rw (dot, split_loop, split_from)
        (split_loop_lem (out ++ (cur ∷ [])) "" p
          ∙ List.append_assoc out (cur ∷ []) (split_from b'.' "" p))
  | inr other ↦
      rw (other, split_loop, split_from) (split_loop_lem out (cur <> String.◌∷◌ c String.[]) p)
]

-- The loop over the bytes of a path cuts it as `strings.Split` does at dots.
pub split_path-split : (p : String) → split_path p ≡ split b'.' p
unfolding split_path split
split_path-split p = split_loop_lem [] "" p

-- The keys, each behind a dot.
unfoldable pub spelled : List String → String
spelled [] = ""
spelled (k ∷ ks) = "." <> k <> spelled ks

join_rest_lem : (out : String) (ks : List String) → join_rest out ks ≡ out <> spelled ks
unfolding join_rest spelled
join_rest_lem out [] = sym (append-nil out)
join_rest_lem out (k ∷ ks) =
    join_rest_lem (out <> "." <> k) ks
    ∙ append_assoc out ("." <> k) (spelled ks)
    ∙ ap (λ s. out <> s) (append_assoc "." k (spelled ks))

single-append : (c : Char) (p : String) → String.◌∷◌ c String.[] <> p ≡ String.◌∷◌ c p
single-append c p = cons-append c "" p ∙ ap (λ rest. String.◌∷◌ c rest) (nil-append p)

spelled-split_from : (cur p : String) → spelled (split_from b'.' cur p) ≡ "." <> cur <> p
unfolding spelled split_from
spelled-split_from cur String.[] = refl
spelled-split_from cur (String.◌∷◌ c p) = elim (Bool-cases (eqb (code c) b'.')) [
  | inl dot ↦
      let stop : c ≡ "." = Char-path c "." (ground (arith, dot)) in
      rw (dot, split_from)
        (ap (λ rest. "." <> cur <> rest)
          (spelled-split_from "" p
            ∙ ap (λ rest. "." <> rest) (nil-append p)
            ∙ single-append "." p
            ∙ ap (λ (d : Char). String.◌∷◌ d p) (sym stop)))
  | inr other ↦
      rw (other, split_from)
        (spelled-split_from (cur <> String.◌∷◌ c String.[]) p
          ∙ ap (λ rest. "." <> rest) (append_assoc cur (String.◌∷◌ c String.[]) p)
          ∙ ap (λ rest. "." <> cur <> rest) (single-append c p))
]

split_from-ne-nil : (cur p : String) → split_from b'.' cur p ≢ []
unfolding split_from
split_from-ne-nil cur String.[] = λ h. cc h
split_from-ne-nil cur (String.◌∷◌ c p) = elim (Bool-cases (eqb (code c) b'.')) [
  | inl dot ↦ rw (dot, split_from) (λ h. cc h)
  | inr other ↦ rw (other, split_from) (split_from-ne-nil (cur <> String.◌∷◌ c String.[]) p)
]

spelled-join_keys : (ks : List String) → ks ≢ [] → spelled ks ≡ "." <> join_keys ks
unfolding spelled join_keys
spelled-join_keys [] h = absurd (h refl)
spelled-join_keys (k ∷ ks) h = ap (λ rest. "." <> rest) (sym (join_rest_lem k ks))

-- Joining the keys of a path gives the path back, whatever stands between and around its dots.
pub join_keys-split_path : (p : String) → join_keys (split_path p) ≡ p
unfolding split
join_keys-split_path p =
    let keys = split_from b'.' "" p in
    rw (split_path-split p) (
      append_cancel_left "." (join_keys keys) p (
        sym (spelled-join_keys keys (split_from-ne-nil "" p))
        ∙ spelled-split_from "" p
        ∙ ap (λ rest. "." <> rest) (nil-append p)))

split_path-ne-nil : (p : String) → split_path p ≢ []
unfolding split
split_path-ne-nil p h = split_from-ne-nil "" p (sym (split_path-split p) ∙ h)

-- Keys with dots between them.
abbrev dotted : String → List String → String
dotted k ks = k <> spelled ks

join_keys-dotted : (k : String) (ks : List String) → join_keys (k ∷ ks) ≡ dotted k ks
unfolding join_keys
join_keys-dotted k ks = join_rest_lem k ks

module _ {F : Type 0} where
  -- The number stands in nested maps, one for each key; on the way no map has the keys that are left, with
  -- dots between them, as one key.
  unfoldable pub IsNestedAt : String → List String → Fields F → F → Type 0
  IsNestedAt k [] m x = get k m ≡ some (num x)
  IsNestedAt k (next ∷ ks) m x =
      (get (dotted k (next ∷ ks)) m ≡ none)
      × (inner : Fields F) × (get k m ≡ some (object inner))
      × IsNestedAt next ks inner x

  -- The number stands under the whole path as one key, or in nested maps.
  abbrev pub StandsAt : String → List String → Fields F → F → Type 0
  StandsAt path [] doc x = ⊥
  StandsAt path (k ∷ ks) doc x = (get path doc ≡ some (num x)) ⊎ IsNestedAt k ks doc x

  walk-nested :
      (k : String) (ks : List String) (m : Fields F) (x : F)
      → IsNestedAt k ks m x
      → walk k ks m ≡ some x
  unfolding walk IsNestedAt
  walk-nested k [] m x h = ap as_num? h
  walk-nested k (next ∷ ks) m x (absent, inner, there, below) =
      rw (join_keys-dotted k (next ∷ ks), absent, walk)
        (rw there (walk-nested next ks inner x below))

  walk-flat :
      (k : String) (ks : List String) (m : Fields F) (x : F)
      → get (join_keys (k ∷ ks)) m ≡ some (num x)
      → walk k ks m ≡ some x
  unfolding walk
  walk-flat k [] m x h = unfold join_keys in ap as_num? h
  walk-flat k (next ∷ ks) m x h = rw (h, walk) refl

  walk_all-StandsAt :
      (path : String) (ks : List String) (doc : Fields F) (x : F)
      → join_keys ks ≡ path
      → StandsAt path ks doc x
      → walk_all ks doc ≡ some x
  walk_all-StandsAt path [] doc x joined h = absurd h
  walk_all-StandsAt path (k ∷ ks) doc x joined (inl flat) =
      walk-flat k ks doc x (ap (λ p. get p doc) joined ∙ flat)
  walk_all-StandsAt path (k ∷ ks) doc x joined (inr nested) = walk-nested k ks doc x nested

  -- flespi sends a number under one dotted key or in nested maps. In every message, whatever else it holds,
  -- the number is found at its path, in the one form or in the other: the whole path as one key comes first,
  -- and in the maps on the way the keys that are left must not stand as one key too.
  pub num_at_shapes :
      (doc : Fields F) (path : String) (x : F)
      → StandsAt path (split b'.' path) doc x
      → num_at doc path ≡ some x
  unfolding num_at
  num_at_shapes doc path x h =
      walk_all-StandsAt path (split_path path) doc x (join_keys-split_path path)
        (subst (λ ks. StandsAt path ks doc x) (sym (split_path-split path)) h)

module _ {F : Type 0} ⦃r : Runtime F⦄ (print_unix_nano : Time → String) where
  checked-ok :
      (t : Telemetry F) (found : Option Invalid) {t' : Telemetry F}
      → checked print_unix_nano t found ≡ ok t'
      → (found ≡ none) × (t ≡ t')
  checked-ok t none h = (refl, cc h)
  checked-ok t (some x) h = absurd (cc h)

  -- What an accepted message is: the device, the position, the time of arrival.
  abbrev pub Accepted : String → Option F → Option F → Time → Telemetry F → Type 0
  Accepted ident lat lng now t =
      IsCanonical t
      × (t.metadata.correlation_id ≢ "")
      × (t.metadata.correlation_id ≡ ident)
      × (lat ≡ some t.location.lat)
      × (lng ≡ some t.location.lng)
      × (t.timestamp ≡ now)
      × (t.metadata.quality ≡ "degraded:no-timestamp")

  located-ok :
      (tenant : String) (doc : Fields F) (ident : String) (lat lng : Option F) (now : Time)
      {t : Telemetry F}
      → located print_unix_nano tenant doc ident lat lng now ≡ ok t
      → Accepted ident lat lng now t
  unfolding located normalized
  located-ok tenant doc ident none lng now h = absurd (cc h)
  located-ok tenant doc ident (some lat) none now h = absurd (cc h)
  located-ok tenant doc ident (some lat) (some lng) now h = elim (Bool-cases (ident == "")) [
    | inl missing ↦ absurd (ground (arith, h, missing))
    | inr given ↦
        let n = normalized print_unix_nano tenant doc ident lat lng now in
        let (valid, same) = checked-ok n (validate n) (rw given at h) in
        rw (← same) (
          (validate-none_iff n).0 valid,
          (λ e. ground (arith, given, eq_iff ident "", e)),
          refl,
          refl,
          refl,
          refl,
          refl,
        )
  ]

  -- A message that is accepted names its device and holds a position; what it becomes is canonical, carries
  -- the device as its correlation identifier, and has the time of its arrival, marked as degraded.
  pub message_to_telemetry-IsCanonical :
      (tenant : String) (doc : Fields F) (now : Time) {t : Telemetry F}
      → message_to_telemetry print_unix_nano tenant (some doc) now ≡ ok t
      → Accepted
          (as_text (get "ident" doc))
          (num_at doc "position.latitude")
          (num_at doc "position.longitude")
          now
          t
  unfolding message_to_telemetry
  message_to_telemetry-IsCanonical tenant doc now h =
      located-ok tenant doc (as_text (get "ident" doc)) (num_at doc "position.latitude")
        (num_at doc "position.longitude") now h

-- ===== src/Api/Connections/Laws.antt =====
-- What the connections screen and the hub hold (internal/api/server.go).
use tide.Prelude.{
  ◌*◌, ◌≡◌, ltb_ℤ, pos, arith, true, false, List, [], ◌∷◌, map, All, All-append, refl, String,
}
use tide.Schemas.Clock.{Time, sub, nanos}
use tide.Api.Connections.{
  AdapterRegistry, RegistryEntry, Connection, http_ingestion, list, shown, handle_connections,
}

not_stale_now : (now : Time) → ltb_ℤ (pos (90 * nanos)) (sub now now) ≡ false
unfolding sub
not_stale_now now = ground arith

module _ {F : Type 0} where
  -- a source whose last heartbeat is more than ninety seconds old is shown as stale
  abbrev pub IsHonest : Time → Connection F → Type 0
  IsHonest now c = (ltb_ℤ (pos (90 * nanos)) (sub now c.last_seen) ≡ true) → c.state ≡ "STALE"

  shown-IsHonest :
      (now : Time) (es : List (String × RegistryEntry F)) → All (IsHonest now) (map (shown now) es)
  shown-IsHonest now [] = tt
  shown-IsHonest now ((name, e) ∷ es) = ((λ h. rw h refl), shown-IsHonest now es)

  -- The connections screen shows no source by the state of an old heartbeat: one whose heartbeat is more
  -- than ninety seconds old is stale.
  pub handle_connections-IsHonest :
      (now : Time) (r : AdapterRegistry F) → All (IsHonest now) (handle_connections now r)
  unfolding handle_connections list
  handle_connections-IsHonest now r =
      All-append (IsHonest now) (list now r) (http_ingestion now ∷ [])
        (shown-IsHonest now r.entries) ((λ h. absurd (cc (h, not_stale_now now))), tt)

-- ===== src/Api/Geofences/Laws.antt =====
-- What the store of geofences and the tracker hold (internal/api/server.go).
use tide.Prelude.{
  ◌≡◌, ◌≢◌, ◌≤◌, ◌==◌, length, eq_iff, arith, true, false, Bool-cases, Option-cases, inl, inr,
  Option, none, some, [], ◌∷◌, ◌++◌, All, All-append, refl, String,
}
use tide.Geo.{Geofence, Tracker, set_fences}
use tide.Api.Replies.{status}
use tide.Api.Geofences.{
  GeofenceStore, Held, is_incomplete, kept, activated, post_body, add, post_geofence,
  handle_geofences,
}

module _ {F : Type 0} where
  pub record IsComplete (f : Geofence F) : Type 0 where
    pub id_given : f.id ≢ ""
    pub tenant_given : f.tenant_id ≢ ""
    pub has_area : 3 ≤ length f.polygon

  IsComplete-of : (f : Geofence F) → is_incomplete f ≡ false → IsComplete f
  IsComplete-of f h = ground (arith, h, eq_iff f.id "", eq_iff f.tenant_id "")

abbrev stored : {F W : Type 0} → Option String × GeofenceStore F × W → GeofenceStore F
stored (failure, s, w) = s

module _ {F W : Type 0} (pg : Option (Geofence F → W → Option String × W)) where
  -- every fence of the store is complete
  abbrev pub AllComplete : Held F W → Type 0
  AllComplete h = All IsComplete h.store.fences

  add-AllComplete :
      (f : Geofence F) (s : GeofenceStore F) (w : W)
      → All IsComplete s.fences
      → All IsComplete (stored (add pg f s w)).fences
  unfolding add
  add-AllComplete f s w h = elim (Bool-cases (is_incomplete f)) [
    | inl lacking ↦ rw (lacking, add) h
    | inr given ↦
        rw (given, add) (All-append IsComplete s.fences (f ∷ []) h (IsComplete-of f given, tt))
  ]

  -- Posting a fence, in all its outcomes. One that lacks an identifier, a tenant or three points is refused
  -- and changes nothing. Any other is kept in the store. Where the database takes it too, the tracker has
  -- from then on all the fences of the store; where the database fails, the answer is a refusal, and the
  -- tracker goes on with the fences it had.
  pub post_geofence_lem :
      (f : Geofence F) (h : Held F W)
      → let (reply, h') = post_geofence pg f h in
        let (failure, w') = kept pg f h.world in
        ((is_incomplete f ≡ true) → (status reply ≡ 422) × (h' ≡ h))
        × ((is_incomplete f ≡ false)
            → (h'.store.fences ≡ h.store.fences ++ (f ∷ []))
              × (failure ≡ none → (status reply ≡ 201) × (h'.tracker.fences ≡ h'.store.fences))
              × (failure ≢ none → (status reply ≡ 422) × (h'.tracker ≡ h.tracker)))
  unfolding post_geofence add set_fences
  post_geofence_lem f h = elim (Bool-cases (is_incomplete f)) [
    | inl lacking ↦ rw (lacking, add) ((λ _. (refl, refl)), (λ e. absurd (cc e)))
    | inr given ↦ elim (Option-cases (kept pg f h.world).0) [
      | inl fine ↦
          rw (given, fine, add)
            ((λ e. absurd (cc e)), (λ _. (refl, (λ _. (refl, refl)), (λ bad. absurd (bad refl)))))
      | inr (msg, failed) ↦
          rw (given, failed, add)
            ((λ e. absurd (cc e)), (λ _. (refl, (λ e. absurd (cc e)), (λ _. (refl, refl)))))
    ]
  ]

  activated_store :
      (a : Option String × GeofenceStore F × W) (t : Tracker F)
      → (activated pg a t).1.store ≡ stored a
  activated_store (none, s, w) t = refl
  activated_store (some msg, s, w) t = refl

  post_geofence-AllComplete :
      (f : Geofence F) (h : Held F W) → AllComplete h → AllComplete (post_geofence pg f h).1
  unfolding post_geofence
  post_geofence-AllComplete f h complete =
      rw (activated_store (add pg f h.store h.world) h.tracker)
        (add-AllComplete f h.store h.world complete)

  post_body-AllComplete :
      (body : Option (Geofence F)) (h : Held F W)
      → AllComplete h
      → AllComplete (post_body pg body h).1
  post_body-AllComplete none h complete = complete
  post_body-AllComplete (some f) h complete = post_geofence-AllComplete f h complete

  -- Whatever requests come in, the store holds complete fences only.
  pub handle_geofences-AllComplete :
      (method : String) (body : Option (Geofence F)) (h : Held F W)
      → AllComplete h
      → AllComplete (handle_geofences pg method body h).1
  unfolding handle_geofences
  handle_geofences-AllComplete method body h complete = elim (Bool-cases (method == "GET")) [
    | inl reads ↦ rw reads complete
    | inr reads ↦ elim (Bool-cases (method == "POST")) [
      | inr other ↦ rw (reads, other) complete
      | inl post ↦ rw (reads, post) (post_body-AllComplete body h complete)
    ]
  ]

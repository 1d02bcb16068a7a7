-- ===== src/Schemas/Payload.antt =====
-- `map[string]any` as it comes out of JSON: values over the type `F` of the floats.
use tide.Prelude.{String, Bool, if◌then◌else◌, ◌==◌, Option, none, some}

mutual
  pub data Value (F : Type 0) : Type 0 where
    null : Value F
    flag : Bool → Value F
    num : F → Value F
    text : String → Value F
    array : Items F → Value F
    object : Fields F → Value F

  pub data Items (F : Type 0) : Type 0 where
    nil : Items F
    cons : Value F → Items F → Items F

  pub data Fields (F : Type 0) : Type 0 where
    end : Fields F
    field : String → Value F → Fields F → Fields F

module _ {F : Type 0} where
  -- `m[k] = v`
  unfoldable pub put : String → Value F → Fields F → Fields F
  put k v end = field k v end
  put k v (field j w m) = if j == k then field k v m else field j w (put k v m)

  -- `v, ok := m[k]`
  unfoldable pub get : String → Fields F → Option (Value F)
  get k end = none
  get k (field j v m) = if j == k then some v else get k m

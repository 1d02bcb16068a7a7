-- ===== src/Api/Replies.antt =====
-- What the handlers of internal/api answer: an error with its text, or a status with a body.
use tide.Prelude.{ℕ, String}

pub data Reply {ℓ} (A : Type ℓ) : Type ℓ where
  refused : ℕ → String → Reply A
  answered : ℕ → A → Reply A

-- `http.Error(w, "method not allowed", http.StatusMethodNotAllowed)`
abbrev pub method_not_allowed {ℓ} : {A : Type ℓ} → Reply A
method_not_allowed = refused 405 "method not allowed"

-- `internalError`: the text says nothing of the error.
abbrev pub internal_error {ℓ} : {A : Type ℓ} → Reply A
internal_error = refused 500 "internal error"

abbrev pub status {ℓ} : {A : Type ℓ} → Reply A → ℕ
status (refused n _) = n
status (answered n _) = n

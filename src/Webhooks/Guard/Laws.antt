-- ===== src/Webhooks/Guard/Laws.antt =====
-- Which redirects a guarded client follows (internal/webhooks/ssrf.go).
use tide.Prelude.{
  ℕ, ◌+◌, ◌≤◌, String, false, ◌≡◌, refl, sym, subst, arith, Option, none, some, List, [], ◌∷◌, All,
  length, Option-cases, inl, inr, ltb, Bool-cases,
}
use tide.Webhooks.Ssrf.{Resolver, Blocked, validate_url}
use tide.Webhooks.Guard.{RedirectError, check_redirect, redirect_error}

module _ {Ip : Type 0} (net : Resolver Ip) where
  abbrev hop : Option RedirectError → String → List String → List String
  hop (some _) url urls = []
  hop none url urls = url ∷ urls

  -- The redirects that are followed, of those that the servers ask for, after a number of requests: up to
  -- the first one that `CheckRedirect` refuses.
  abbrev pub followed : ℕ → List String → List String
  followed via [] = []
  followed via (url ∷ urls) = hop (check_redirect net false via url) url (followed (via + 1) urls)

  abbrev AreFew : ℕ → List String → Type 0
  AreFew via urls = (length urls + via ≤ 4) × All (λ url. validate_url net url false ≡ none) urls

  redirect_error-none : (b : Option Blocked) → redirect_error net false b ≡ none → b ≡ none
  redirect_error-none none h = refl
  redirect_error-none (some b) h = absurd (cc h)

  check_redirect-none :
      (via : ℕ) (url : String)
      → check_redirect net false via url ≡ none
      → (via ≤ 3) × (validate_url net url false ≡ none)
  unfolding check_redirect
  check_redirect-none via url h = elim (Bool-cases (ltb 3 via)) [
    | inl many ↦ absurd (ground (arith, h, many))
    | inr few ↦ (
      ground (arith, few),
      redirect_error-none (validate_url net url false) (ground (arith, h, few)),
    )
  ]

  followed-IsValid : (urls : List String) (via : ℕ) → via ≤ 4 → AreFew via (followed via urls)
  followed-IsValid [] via few = (omega (arith, few), tt)
  followed-IsValid (url ∷ urls) via few =
      let after_hop =
        λ (o : Option RedirectError). AreFew via (hop o url (followed (via + 1) urls)) in
      elim (Option-cases (check_redirect net false via url)) [
        | inr (x, refused) ↦ subst after_hop (sym refused) (omega (arith, few), tt)
        | inl passed ↦
            let (below, good) = check_redirect-none via url passed in
            let (most, all) = followed-IsValid urls (via + 1) (omega (arith, below)) in
            subst after_hop (sym passed) (omega (arith, most), (good, all))
      ]

  -- However many redirects the servers ask for, at most three are followed, each to a URL that
  -- `ValidateURL` accepts.
  pub redirects-IsValid :
      (urls : List String)
      → (length (followed 1 urls) ≤ 3)
        × All (λ url. validate_url net url false ≡ none) (followed 1 urls)
  redirects-IsValid urls =
      let (most, all) = followed-IsValid urls 1 (omega arith) in (omega (arith, most), all)

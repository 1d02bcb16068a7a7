-- ===== src/Simulator/Scenarios/Laws.antt =====
-- Every scenario that is listed can be fetched (simulator/simulator.go).
use mathlib.Core.List.{Memᴰ}
use mathlib.Core.List.Memᴰ.{of_map}
use tide.Prelude.{String, ◌<>◌, true, ◌≡◌, sym, ap, ◌∙◌, subst, some, List, map, is_some}
use tide.Prelude.Sort.{mem-sort_by}
use tide.Simulator.Scenarios.{Embedded, get, names, names_in}

-- What is built in: the files of the directory, whose names end in the suffix, once.
pub record IsBuilt {B : Type 0} (fs : Embedded B) : Type 0 where
  pub entries : List String
  pub listed : fs.read_dir ≡ some entries
  pub stem : String → String
  pub named : (e : String) → Memᴰ e entries → e ≡ stem e <> ".yaml"
  pub trimmed : (e : String) → Memᴰ e entries → fs.trim_suffix e ".yaml" ≡ stem e
  pub once : (e : String) → Memᴰ e entries → fs.trim_suffix (stem e) ".yaml" ≡ stem e
  pub readable : (e : String) → Memᴰ e entries → is_some (fs.read_file ("scenarios/" <> e)) ≡ true

module _ {B : Type 0} (fs : Embedded B) (built : IsBuilt fs) where
  open built use {entries, listed, stem, named, trimmed, once, readable}

  -- Every scenario that is listed can be fetched by the name that it is listed with.
  pub get-names : (name : String) → Memᴰ name (names fs) → is_some (get fs name) ≡ true
  unfolding names get
  get-names name m =
      let listed_name = subst (λ dir. Memᴰ name (names_in fs dir)) listed m in
      let (e, there, is_name) =
        of_map (λ e. fs.trim_suffix e ".yaml") entries
          (mem-sort_by fs.str_lt name (map (λ e. fs.trim_suffix e ".yaml") entries) listed_name) in
      let same : stem e ≡ name = sym (trimmed e there) ∙ is_name in
      let file : fs.trim_suffix name ".yaml" <> ".yaml" ≡ e =
        ap (λ s. s <> ".yaml") (subst (λ n. fs.trim_suffix n ".yaml" ≡ stem e) same (once e there))
        ∙ sym (named e there) in
      ap (λ f. is_some (fs.read_file ("scenarios/" <> f))) file ∙ readable e there

-- ===== src/Template/Registry/Tests.antt =====
-- Reloads and lists of concrete templates.
use mountain_king.Prelude.{ℕ, ◌≡◌, refl, true, none, some, [], ◌∷◌, codes, bytes_eq}
use mountain_king.Prelude.Int.{pos}
use mountain_king.Template.Registry.{LoadResult, ReloadState, get_all, page_of_templates, reload}

-- A template is its version.
abbrev state : ReloadState ℕ
state = record {
  registry = record {
    templates = (codes "a", 1) ∷ (codes "b", 1) ∷ [];
    hashes = (codes "a", codes "h1") ∷ (codes "b", codes "k1") ∷ [];
  };
  last_reload_at = 0;
  last_reload_result = none;
}

-- `a` is broken, `b` is new, `c` is added.
abbrev loaded : LoadResult ℕ
loaded = record {
  registered = (codes "b", 2) ∷ (codes "c", 2) ∷ [];
  hashes = (codes "b", codes "k2") ∷ (codes "c", codes "l2") ∷ [];
  failures = codes "a" ∷ [];
}

clears : (reload true true 5 (some loaded) state).cleared ≡ codes "b" ∷ codes "c" ∷ []
unfolding reload bytes_eq
clears = refl

held_off :
    (reload true true 5 (some loaded) (reload true true 4 (some loaded) state).state).cleared ≡ []
unfolding reload bytes_eq
held_off = refl

sorted :
    get_all {A = ℕ} ((codes "b", 1) ∷ (codes "a", 2) ∷ []) ≡ (codes "a", 2) ∷ (codes "b", 1) ∷ []
unfolding get_all
sorted = refl

second_page :
    page_of_templates {A = ℕ} (some (pos 2)) (some (pos 1)) (10 ∷ 11 ∷ 12 ∷ 13 ∷ []) ≡ 11 ∷ 12 ∷ []
unfolding page_of_templates
second_page = refl

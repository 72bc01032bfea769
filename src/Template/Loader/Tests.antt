-- ===== src/Template/Loader/Tests.antt =====
-- A configuration of three templates.
use mountain_king.Prelude.{
  ◌+◌, ◌≡◌, refl, subst, true, false, none, some, List, [], ◌∷◌, Bytes, codes, bytes_eq,
  if◌then◌else◌, All,
}
use mountain_king.Prelude.Int.{pos}
use mountain_king.Template.Loader.{
  TemplateParamConfig, TemplateConfig, Outside, absent, sized, load_all,
}
use mountain_king.Template.Loader.Loaded.{
  HasFiniteDefault, IsLoaded, AreNamed, load_all-IsLoaded, count_name, names_of, configured_names,
}
use mountain_king.Template.Params.{Numbers, is_finite}
use mountain_king.Template.Renderer.{rendered}

numbers : Numbers
unfolding is_finite
numbers = record {
  to_int64 = λ bits. pos 0;
  of_int64 = λ z. 0;
  of_float32 = λ b. 0;
  parse_float = λ s. some 0;
  sprint = λ v. [];
  of_int64-finite = λ z. refl;
}

abbrev outside : Outside
outside = record {
  numbers = numbers;
  file_at =
      λ file. if bytes_eq file (codes "a.sql") then sized 3 (some (codes "SELECT 1")) else absent;
  is_utf8 = λ content. true;
  parse_template = λ name content. some (λ params. rendered content);
  compile = λ text. none;
  parse_bool = λ s. none;
  sha256_hex = λ content. codes "0";
}

abbrev limit : Bytes → TemplateParamConfig
limit default = record {
  name = codes "limit";
  type_name = codes "int";
  required = false;
  default = some default;
  enum = [];
  max_length = none;
  max_items = none;
  pattern = none;
}

abbrev configured : Bytes → Bytes → Bytes → TemplateConfig
configured name file default = record {
  name = name;
  file = file;
  cache_enabled = none;
  cache_ttl = none;
  count_enabled = none;
  parameters = limit default ∷ [];
}

abbrev templates : List TemplateConfig
templates =
    configured (codes "daily") (codes "a.sql") (codes "10")
    ∷ configured (codes "weekly") (codes "b.sql") (codes "10")
    ∷ configured (codes "broken") (codes "a.sql") (codes "ten")
    ∷ configured (codes "daily") (codes "a.sql") (codes "20")
    ∷ []

one_is_left :
    (load_all outside templates).failures ≡ codes "weekly" ∷ codes "broken" ∷ codes "daily" ∷ []
unfolding load_all bytes_eq
one_is_left = refl

all_finite : (p : TemplateParamConfig) → HasFiniteDefault outside p
unfolding numbers is_finite
all_finite p raw bits e parsed =
    let zero_bits : 0 ≡ bits = cc in subst (λ b. is_finite b ≡ true) zero_bits refl

load_all-IsLoaded_example :
    All (IsLoaded outside) (load_all outside templates).registered
    × AreNamed outside (load_all outside templates).registered
    × (count_name outside (codes "daily") (names_of outside (load_all outside templates).registered)
          + count_name outside (codes "daily") (load_all outside templates).failures
        ≡ count_name outside (codes "daily") (configured_names outside templates))
load_all-IsLoaded_example = load_all-IsLoaded outside templates (codes "daily") (
  (all_finite (limit (codes "10")), tt),
  (
    (all_finite (limit (codes "10")), tt),
    ((all_finite (limit (codes "ten")), tt), ((all_finite (limit (codes "20")), tt), tt)),
  ),
)

-- The second template fails, the one behind it is loaded.
abbrev first_fails : List TemplateConfig
first_fails = configured (codes "weekly") (codes "b.sql") (codes "10") ∷ []

abbrev daily : TemplateConfig
daily = configured (codes "daily") (codes "a.sql") (codes "10")

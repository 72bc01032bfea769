-- ===== src/Template/Loader.antt =====
-- internal/template/loader.go: `loadAll`. The disk, the packages unicode/utf8, text/template and regexp,
-- and the hash are parameters; shared fragments are part of what text/template parses with.
mod Found
mod Loaded
mod Tests
use mountain_king.Prelude.{
  ℕ, suc, Bool, true, false, not, ◌&&◌, ◌||◌, Option, none, some, List, [], ◌∷◌, ◌++◌, Bytes, codes,
  bytes_eq, any, all, length, leb, ltb, ◌==◌, if◌then◌else◌, is_digit,
}
use mountain_king.Prelude.Int.{ℤ, pos}
use mountain_king.Template.Params.{
  ParamType, string_type, int_type, float_type, boolean_type, strings_type, unsupported,
  ParamSchema, Numbers, parse_int,
}
use mountain_king.Template.Registry.{LoadResult}
use mountain_king.Template.Renderer.{Rendering, RegisteredTemplate}
use mountain_king.Value.{Value, Fields, string, boolean, float64, int64}

pub record TemplateParamConfig : Type 0 where
  pub name : Bytes
  pub type_name : Bytes
  pub required : Bool
  pub default : Option Bytes
  pub enum : List Bytes
  pub max_length : Option ℤ
  pub max_items : Option ℤ
  pub pattern : Option Bytes

pub record TemplateConfig : Type 0 where
  pub name : Bytes
  pub file : Bytes
  pub cache_enabled : Option Bool
  pub cache_ttl : Option ℤ
  pub count_enabled : Option Bool
  pub parameters : List TemplateParamConfig

-- What `os.Stat` and then `os.ReadFile` find.
pub data FileOnDisk : Type 0 where
  absent : FileOnDisk
  sized : (size : ℕ) → (content : Option Bytes) → FileOnDisk

pub record Outside : Type 0 where
  pub numbers : Numbers
  pub file_at : Bytes → FileOnDisk
  pub is_utf8 : Bytes → Bool
  pub parse_template : (name content : Bytes) → Option (Fields → Rendering)
  pub compile : Bytes → Option (Bytes → Bool)
  pub parse_bool : Bytes → Option Bool
  pub sha256_hex : Bytes → Bytes

-- `^[a-zA-Z0-9_-]{1,64}$`.
unfoldable pub is_name_byte : ℕ → Bool
is_name_byte c =
    (leb b'a' c && leb c b'z')
    || ((leb b'A' c && leb c b'Z') || (is_digit c || (c == b'_' || c == b'-')))

unfoldable pub template_name_re : Bytes → Bool
unfolding is_name_byte
template_name_re name = leb 1 (length name) && (leb (length name) 64 && all is_name_byte name)

abbrev pub max_template_file_size : ℕ
max_template_file_size = 1_048_576

unfoldable pub read_template_file : FileOnDisk → Option Bytes
read_template_file absent = none
read_template_file (sized size content) = if ltb max_template_file_size size then none else content

unfoldable pub param_type_of : Bytes → ParamType
unfolding bytes_eq
param_type_of name =
    if bytes_eq name (codes "string")
    then string_type
    else if bytes_eq name (codes "int")
    then int_type
    else if bytes_eq name (codes "float")
    then float_type
    else if bytes_eq name (codes "boolean")
    then boolean_type
    else if bytes_eq name (codes "string[]")
    then strings_type
    else unsupported

-- The rest behind an error that is given on.
infixl 5 ◌>>=◌
abbrev pub ◌>>=◌ : {A B : Type 0} → Option A → (A → Option B) → Option B
none >>= next = none
some a >>= next = next a

abbrev map_some : {A B : Type 0} → (A → B) → Option A → Option B
map_some f none = none
map_some f (some a) = some (f a)

module _ (o : Outside) where
  -- The value, or nil for a list of texts; none for an error.
  unfoldable pub parse_default_value : Bytes → ParamType → Option (Option Value)
  unfolding parse_int
  parse_default_value raw string_type = some (some (string raw))
  parse_default_value raw int_type = map_some (λ z. some (int64 z)) (parse_int raw)
  parse_default_value raw float_type = map_some (λ b. some (float64 b)) (o.numbers.parse_float raw)
  parse_default_value raw boolean_type = map_some (λ b. some (boolean b)) (o.parse_bool raw)
  parse_default_value raw strings_type = some none
  parse_default_value raw unsupported = none

  abbrev pub default_of : Option Bytes → ParamType → Option (Option Value)
  unfolding parse_default_value
  default_of none t = some none
  default_of (some raw) t = parse_default_value raw t

  abbrev pub pattern_of : Option Bytes → Option (Option (Bytes → Bool))
  pattern_of none = some none
  pattern_of (some []) = some none
  pattern_of (some (c ∷ s)) = map_some some (o.compile (c ∷ s))

  abbrev pub or_default : {A : Type 0} → A → Option A → A
  or_default a none = a
  or_default a (some b) = b

  unfoldable pub compile_param_schema : TemplateParamConfig → Option ParamSchema
  unfolding default_of param_type_of
  compile_param_schema p = do
    pattern ← pattern_of p.pattern
    default ← default_of p.default (param_type_of p.type_name)
    some (record {
      name = p.name;
      type_of = param_type_of p.type_name;
      required = p.required;
      default = default;
      enum = p.enum;
      max_length = or_default (pos 1024) p.max_length;
      max_items = or_default (pos 1000) p.max_items;
      pattern = pattern;
    })

  unfoldable pub compile_param_schemas : List TemplateParamConfig → Option (List ParamSchema)
  unfolding compile_param_schema
  compile_param_schemas [] = some []
  compile_param_schemas (p ∷ ps) = do
    schema ← compile_param_schema p
    schemas ← compile_param_schemas ps
    some (schema ∷ schemas)

  abbrev pub checked_utf8 : Bytes → Option Bytes
  checked_utf8 content = if o.is_utf8 content then some content else none

  -- A template with its hash: steps 2c to 2k.
  unfoldable pub load_one : TemplateConfig → Option (RegisteredTemplate × Bytes)
  unfolding read_template_file compile_param_schemas
  load_one tc = do
    read ← read_template_file (o.file_at tc.file)
    content ← checked_utf8 read
    tmpl ← o.parse_template tc.name content
    schemas ← compile_param_schemas tc.parameters
    some (
      record {
        name = tc.name;
        template = tmpl;
        param_schemas = schemas;
        cache_enabled = or_default true tc.cache_enabled;
        cache_ttl = tc.cache_ttl;
        count_enabled = or_default true tc.count_enabled;
      },
      o.sha256_hex content,
    )

  abbrev pub failing : Bytes → LoadResult RegisteredTemplate → LoadResult RegisteredTemplate
  failing name result = record result { failures = name ∷ result.failures }

  abbrev pub registering :
      Bytes
      → Option (RegisteredTemplate × Bytes)
      → LoadResult RegisteredTemplate
      → LoadResult RegisteredTemplate
  registering name none result = failing name result
  registering name (some (tmpl, hash)) result = record result {
    registered = (name, tmpl) ∷ result.registered;
    hashes = (name, hash) ∷ result.hashes;
  }

  -- The loop over the templates, with the names that it has seen.
  unfoldable pub load_from : List Bytes → List TemplateConfig → LoadResult RegisteredTemplate
  unfolding template_name_re load_one bytes_eq
  load_from seen [] = record { registered = []; hashes = []; failures = [] }
  load_from seen (tc ∷ tcs) =
      let skipped = load_from seen tcs in
      let taken = load_from (tc.name ∷ seen) tcs in
      if not (template_name_re tc.name) || any (bytes_eq tc.name) seen
      then failing tc.name skipped
      else registering tc.name (load_one tc) taken

  unfoldable pub load_all : List TemplateConfig → LoadResult RegisteredTemplate
  unfolding load_from
  load_all tcs = load_from [] tcs

-- ===== src/Template/Loader/Loaded.antt =====
-- What the loader hands to the registry.
use mountain_king.Prelude.{
  Option-cases, ℕ, ◌+◌, ◌≡◌, refl, subst, ap, inl, inr, Bool-cases, true, false, not, ◌||◌, Option,
  none, some, List, [], ◌∷◌, Bytes, bytes_eq, any, all, map, if◌then◌else◌, arith, All,
}
use mountain_king.Template.Loader.{
  TemplateParamConfig, TemplateConfig, Outside, template_name_re, param_type_of,
  parse_default_value, default_of, compile_param_schema, compile_param_schemas, pattern_of,
  checked_utf8, read_template_file, registering, load_one, load_from, load_all, ◌>>=◌,
}
use mountain_king.Template.Params.{
  ParamType, string_type, int_type, float_type, boolean_type, strings_type, unsupported,
  ParamSchema, is_finite, parse_int,
}
use mountain_king.Template.Params.Typed.{HasType, HasDefault}
use mountain_king.Template.Registry.{LoadResult}
use mountain_king.Template.Renderer.{RegisteredTemplate}
use mountain_king.Value.{Value, string, int64, float64, boolean}

-- The first part of a chain that yields something.
>>=-eq-some :
    {A B : Type 0} (m : Option A) (f : A → Option B) (b : B)
    → (m >>= f) ≡ some b
    → (a : A) × (m ≡ some a) × (f a ≡ some b)
>>=-eq-some none f b h = cc
>>=-eq-some (some a) f b h = (a, refl, h)

some-injective : {A : Type 0} {a b : A} → some a ≡ some b → a ≡ b
some-injective same = cc

module _ (o : Outside) where
  -- No default of the configuration is a text for NaN or an infinity.
  abbrev pub HasFiniteDefault : TemplateParamConfig → Type 0
  HasFiniteDefault p =
      (raw : Bytes) (bits : ℕ)
      → p.default ≡ some raw
      → o.numbers.parse_float raw ≡ some bits
      → is_finite bits ≡ true

  default_of-HasDefault :
      (given : Option Bytes) (t : ParamType) (d : Option Value)
      → ((raw : Bytes) (bits : ℕ)
          → given ≡ some raw
          → o.numbers.parse_float raw ≡ some bits
          → is_finite bits ≡ true)
      → default_of o given t ≡ some d
      → HasDefault t d
  unfolding default_of parse_default_value
  default_of-HasDefault none t none finite h = tt
  default_of-HasDefault none t (some v) finite h = cc
  default_of-HasDefault (some raw) t none finite h = tt
  default_of-HasDefault (some raw) string_type (some v) finite h =
      let e : string raw ≡ v = cc in subst (HasType string_type) e tt
  default_of-HasDefault (some raw) int_type (some v) finite h =
      elim (Option-cases (parse_int raw)) [
        | inl e ↦ cc
        | inr (z, e) ↦ let same : int64 z ≡ v = cc in subst (HasType int_type) same tt
      ]
  default_of-HasDefault (some raw) float_type (some v) finite h =
      elim (Option-cases (o.numbers.parse_float raw)) [
        | inl e ↦ cc
        | inr (bits, e) ↦
            let same : float64 bits ≡ v = cc in
            subst (HasType float_type) same (finite raw bits refl e)
      ]
  default_of-HasDefault (some raw) boolean_type (some v) finite h =
      elim (Option-cases (o.parse_bool raw)) [
        | inl e ↦ cc
        | inr (b, e) ↦ let same : boolean b ≡ v = cc in subst (HasType boolean_type) same tt
      ]
  default_of-HasDefault (some raw) strings_type (some v) finite h = cc
  default_of-HasDefault (some raw) unsupported (some v) finite h = cc

  compile_param_schema-HasDefault :
      (p : TemplateParamConfig) (schema : ParamSchema)
      → HasFiniteDefault p
      → compile_param_schema o p ≡ some schema
      → HasDefault schema.type_of schema.default
  unfolding compile_param_schema
  compile_param_schema-HasDefault p schema finite h =
      let (pattern, _, h') = >>=-eq-some (pattern_of o p.pattern) _ schema h in
      let (default, found, e) =
        >>=-eq-some (default_of o p.default (param_type_of p.type_name)) _ schema h' in
      let typed =
        default_of-HasDefault p.default (param_type_of p.type_name) default finite found in
      let same = some-injective e in
      subst (λ (t : ParamSchema). HasDefault t.type_of t.default) same typed

  compile_param_schemas-HasDefault :
      (ps : List TemplateParamConfig) (schemas : List ParamSchema)
      → All HasFiniteDefault ps
      → compile_param_schemas o ps ≡ some schemas
      → All (λ t. HasDefault t.type_of t.default) schemas
  unfolding compile_param_schemas
  compile_param_schemas-HasDefault [] schemas finite h =
      subst (All (λ t. HasDefault t.type_of t.default)) (some-injective h) tt
  compile_param_schemas-HasDefault (p ∷ ps) schemas (f, fs) h =
      let (schema, one, h') = >>=-eq-some (compile_param_schema o p) _ schemas h in
      let (rest, others, e) = >>=-eq-some (compile_param_schemas o ps) _ schemas h' in
      subst (All (λ t. HasDefault t.type_of t.default)) (some-injective e) (
        compile_param_schema-HasDefault p schema f one,
        compile_param_schemas-HasDefault ps rest fs others,
      )

  -- An entry of the registry: its name is that of the template, matches the pattern and is one of
  -- the configuration's, and the defaults of its parameters have their types.
  pub record IsLoaded (entry : Bytes × RegisteredTemplate) : Type 0 where
    pub named : entry.1.name ≡ entry.0
    pub name_matches : template_name_re entry.0 ≡ true
    pub typed : All (λ t. HasDefault t.type_of t.default) entry.1.param_schemas

  load_one-typed :
      (tc : TemplateConfig) (tmpl : RegisteredTemplate) (hash : Bytes)
      → All HasFiniteDefault tc.parameters
      → load_one o tc ≡ some (tmpl, hash)
      → (tmpl.name ≡ tc.name) × All (λ t. HasDefault t.type_of t.default) tmpl.param_schemas
  unfolding load_one
  load_one-typed tc tmpl hash finite h =
      let (read, _, h₁) = >>=-eq-some (read_template_file (o.file_at tc.file)) _ (tmpl, hash) h in
      let (content, _, h₂) = >>=-eq-some (checked_utf8 o read) _ (tmpl, hash) h₁ in
      let (parsed, _, h₃) = >>=-eq-some (o.parse_template tc.name content) _ (tmpl, hash) h₂ in
      let (schemas, compiled, e) =
        >>=-eq-some (compile_param_schemas o tc.parameters) _ (tmpl, hash) h₃ in
      let typed = compile_param_schemas-HasDefault tc.parameters schemas finite compiled in
      let same = ap (λ (t : RegisteredTemplate × Bytes). t.0) (some-injective e) in
      subst
        (λ (t : RegisteredTemplate).
          (t.name ≡ tc.name) × All (λ u. HasDefault u.type_of u.default) t.param_schemas)
        same (refl, typed)

  abbrev pub IsUnseen : List Bytes → Bytes × RegisteredTemplate → Type 0
  IsUnseen seen entry = any (bytes_eq entry.0) seen ≡ false

  -- No two entries have one name.
  abbrev pub AreNamed : List (Bytes × RegisteredTemplate) → Type 0
  AreNamed [] = Unit
  AreNamed (entry ∷ entries) = All (λ e. bytes_eq e.0 entry.0 ≡ false) entries × AreNamed entries

  -- How often a name stands in a list.
  abbrev pub count_name : Bytes → List Bytes → ℕ
  count_name name [] = 0
  count_name name (n ∷ ns) = (if bytes_eq n name then 1 else 0) + count_name name ns

  abbrev pub names_of : List (Bytes × RegisteredTemplate) → List Bytes
  names_of entries = map (λ entry. entry.0) entries

  abbrev pub configured_names : List TemplateConfig → List Bytes
  configured_names tcs = map (λ tc. tc.name) tcs

  record IsSound (name : Bytes) (seen : List Bytes) (tcs : List TemplateConfig)
      (r : LoadResult RegisteredTemplate) : Type 0 where
    pub entries : All IsLoaded r.registered
    pub unseen : All (IsUnseen seen) r.registered
    pub distinct : AreNamed r.registered
    pub counts :
        count_name name (names_of r.registered) + count_name name r.failures
        ≡ count_name name (configured_names tcs)

  pub weaken-IsUnseen :
      (name : Bytes) (seen : List Bytes) (es : List (Bytes × RegisteredTemplate))
      → All (IsUnseen (name ∷ seen)) es
      → All (IsUnseen seen) es × All (λ e. bytes_eq e.0 name ≡ false) es
  weaken-IsUnseen name seen [] all = (tt, tt)
  weaken-IsUnseen name seen (e ∷ es) (h, all) =
      let (weak, other) = weaken-IsUnseen name seen es all in
      ((ground arith, weak), (ground arith, other))

  registering-IsSound :
      (name : Bytes) (seen : List Bytes) (tc : TemplateConfig) (tcs : List TemplateConfig)
      (r : LoadResult RegisteredTemplate) (loaded : Option (RegisteredTemplate × Bytes))
      → template_name_re tc.name ≡ true
      → any (bytes_eq tc.name) seen ≡ false
      → All HasFiniteDefault tc.parameters
      → load_one o tc ≡ loaded
      → IsSound name (tc.name ∷ seen) tcs r
      → IsSound name seen (tc ∷ tcs) (registering o tc.name loaded r)
  registering-IsSound name seen tc tcs r none re new finite e s =
      let count = s.counts in
      record {
        entries = s.entries;
        unseen = (weaken-IsUnseen tc.name seen r.registered s.unseen).0;
        distinct = s.distinct;
        counts = omega arith;
      }
  registering-IsSound name seen tc tcs r (some (tmpl, hash)) re new finite e s =
      let count = s.counts in
      let (named, typed) = load_one-typed tc tmpl hash finite e in
      let (weak, other) = weaken-IsUnseen tc.name seen r.registered s.unseen in
      record {
        entries = (record { named = named; name_matches = re; typed = typed }, s.entries);
        unseen = (new, weak);
        distinct = (other, s.distinct);
        counts = omega arith;
      }

  load_from-IsSound :
      (name : Bytes) (seen : List Bytes) (tcs : List TemplateConfig)
      → All (λ tc. All HasFiniteDefault tc.parameters) tcs
      → IsSound name seen tcs (load_from o seen tcs)
  unfolding load_from
  load_from-IsSound name seen [] finite = record {
    entries = tt;
    unseen = tt;
    distinct = tt;
    counts = refl;
  }
  load_from-IsSound name seen (tc ∷ tcs) (f, fs) =
      elim (Bool-cases (not (template_name_re tc.name) || any (bytes_eq tc.name) seen)) [
        | inl skip ↦
            let s = load_from-IsSound name seen tcs fs in
            let count = s.counts in
            rw skip (record {
              entries = s.entries;
              unseen = s.unseen;
              distinct = s.distinct;
              counts = omega arith;
            })
        | inr take ↦ rw take (
            registering-IsSound name seen tc tcs (load_from o (tc.name ∷ seen) tcs) (load_one o tc)
              (ground arith) (ground arith) f refl (load_from-IsSound name (tc.name ∷ seen) tcs fs))
      ]

  -- Every name stands as often among the registered templates and the failures, taken together, as in the
  -- configuration: each of its templates is registered or reported, under its name. The names of the
  -- registered ones are distinct and match the pattern, and the defaults of their parameters have the
  -- types of their schemas. No default of the configuration is to be a text for NaN or an infinity.
  pub load_all-IsLoaded :
      (tcs : List TemplateConfig) (name : Bytes)
      → All (λ tc. All HasFiniteDefault tc.parameters) tcs
      → All IsLoaded (load_all o tcs).registered
        × AreNamed (load_all o tcs).registered
        × (count_name name (names_of (load_all o tcs).registered)
              + count_name name (load_all o tcs).failures
            ≡ count_name name (configured_names tcs))
  unfolding load_all
  load_all-IsLoaded tcs name finite =
      let s = load_from-IsSound name [] tcs finite in (s.entries, s.distinct, s.counts)

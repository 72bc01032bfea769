-- ===== src/Prometheus/Matchers.antt =====
-- What stands outside the string literals of the matchers, as the lexer of PromQL finds them.
use mountain_king.Prelude.{
  ℕ, ◌≡◌, ◌≢◌, refl, sym, ap, ◌∙◌, subst, List, [], ◌∷◌, ◌++◌, append_assoc, append-nil, arith,
  Bytes, codes, join, All, some, none, Option, false, any,
}
use mountain_king.Errors.{ok, >>-eq-ok}
use mountain_king.Datasource.Request.{FilterCondition, FilterOperator, eq, neq, like}
use mountain_king.Value.{Value}
use mountain_king.Prometheus.Builder.{
  matcher, matchers, filter_op_to_label_match, append_label_matchers, validate_values, braced,
}
use mountain_king.Prometheus.Lexer.{
  quote, backslash, newline, outside, skeleton, Quoteless, Opaque, skeleton-outside,
  skeleton-inside,
}
use mountain_king.Prometheus.Validator.{validate_label_value, is_special}

-- `y` is what is left of `x`, whatever follows.
abbrev Masks : Bytes → Bytes → Type 0
Masks x y = (rest : Bytes) → skeleton outside (x ++ rest) ≡ y ++ skeleton outside rest

quoted :
    (value rest : Bytes)
    → Opaque value
    → skeleton outside (quote ∷ (value ++ quote ∷ rest)) ≡ quote ∷ (quote ∷ skeleton outside rest)
unfolding skeleton
quoted value rest v = ap (λ (s : Bytes). quote ∷ s) (skeleton-inside value (quote ∷ rest) v)

matcher-Masks :
    (field match value : Bytes)
    → Quoteless field
    → Quoteless match
    → Opaque value
    → Masks (matcher field match value) (matcher field match [])
unfolding matcher
matcher-Masks field match value f m v rest =
    ap (skeleton outside) (
      append_assoc field _ rest
      ∙ ap (λ s. field ++ s)
          (append_assoc match _ rest
            ∙ ap (λ (s : Bytes). match ++ (quote ∷ s)) (append_assoc value (quote ∷ []) rest)))
    ∙ skeleton-outside field _ f
    ∙ ap (λ s. field ++ s) (skeleton-outside match _ m ∙ ap (λ s. match ++ s) (quoted value rest v))
    ∙ simp (append_assoc)

-- The literals of a query are closed.
pub record IsClosed (query : Bytes) : Type 0 where
  pub apply :
      (rest : Bytes)
      → skeleton outside (query ++ rest) ≡ skeleton outside query ++ skeleton outside rest

data AreMasked : List Bytes → List Bytes → Type 0 where
  none_left : AreMasked [] []
  more :
      {x y : Bytes} {xs ys : List Bytes} → Masks x y → AreMasked xs ys → AreMasked (x ∷ xs) (y ∷ ys)

join-Masks :
    {xs ys : List Bytes} (sep : Bytes)
    → Quoteless sep
    → AreMasked xs ys
    → Masks (join xs sep) (join ys sep)
unfolding join
join-Masks sep s none_left rest = refl
join-Masks sep s (more p none_left) rest = p rest
join-Masks sep s (more {x} {y} p (more {x = x'} {y = y'} {xs} {ys} q qs)) rest =
    let xs' = join (x' ∷ xs) sep in
    let ys' = join (y' ∷ ys) sep in
    ap (skeleton outside) (append_assoc x _ rest ∙ ap (λ t. x ++ t) (append_assoc sep xs' rest))
    ∙ p _
    ∙ ap (λ t. y ++ t)
        (skeleton-outside sep _ s ∙ ap (λ t. sep ++ t) (join-Masks sep s (more q qs) rest))
    ∙ simp (append_assoc)

-- The labels and the texts of the values of filters, which the validator has let through.
module _ (sprint : Value → Bytes) where
  -- A byte that a literal in double quotes holds as it is, but for the quote itself.
  abbrev pub IsPlain : ℕ → Type 0
  IsPlain c = (c ≢ backslash) × (c ≢ newline)

  -- A label without a quote of any kind, a backtick or a `#`, and a value whose text has no backslash and
  -- no end of line.
  pub record IsLabelled (f : FilterCondition) : Type 0 where
    pub label : Quoteless f.field
    pub plain : All IsPlain (sprint f.value)

  plain-Opaque : (s : Bytes) → any is_special s ≡ false → All IsPlain s → Opaque s
  plain-Opaque [] h a = tt
  plain-Opaque (c ∷ s) h ((p, q), a) = ((ground arith, p, q), plain-Opaque s (ground arith) a)

  value-Opaque : (s : Bytes) → validate_label_value s ≡ ok tt → All IsPlain s → Opaque s
  unfolding validate_label_value
  value-Opaque s h a = plain-Opaque s (ground arith) a

  match-Quoteless :
      (op : FilterOperator) (match : Bytes)
      → filter_op_to_label_match op ≡ some match
      → Quoteless match
  unfolding filter_op_to_label_match
  match-Quoteless eq match h = let e : codes "=" ≡ match = cc in subst Quoteless e (omega arith)
  match-Quoteless neq match h = let e : codes "!=" ≡ match = cc in subst Quoteless e (omega arith)
  match-Quoteless like match h = let e : codes "=~" ≡ match = cc in subst Quoteless e (omega arith)
  match-Quoteless op match h = cc

  step-AreMasked :
      (f : FilterCondition) {xs ys : List Bytes} (known : Option Bytes)
      → AreMasked xs ys
      → IsLabelled f
      → validate_label_value (sprint f.value) ≡ ok tt
      → filter_op_to_label_match f.operator ≡ known
      → AreMasked
          (elim known [ none ↦ xs | some match ↦ matcher f.field match (sprint f.value) ∷ xs ])
          (elim known [ none ↦ ys | some match ↦ matcher f.field match [] ∷ ys ])
  step-AreMasked f none qs p valid e = qs
  step-AreMasked f (some match) qs p valid e =
      more
        (matcher-Masks f.field match (sprint f.value) p.label (match-Quoteless f.operator match e)
          (value-Opaque (sprint f.value) valid p.plain))
        qs

  matchers-AreMasked :
      (fs : List FilterCondition)
      → validate_values sprint fs ≡ ok tt
      → All IsLabelled fs
      → AreMasked (matchers sprint fs) (matchers (λ _. []) fs)
  unfolding matchers validate_values
  matchers-AreMasked [] h a = none_left
  matchers-AreMasked (f ∷ fs) h (p, a) =
      let (valid, rest) =
        >>-eq-ok (validate_label_value (sprint f.value)) (validate_values sprint fs) h in
      step-AreMasked f (filter_op_to_label_match f.operator) (matchers-AreMasked fs rest a) p valid
        refl

  braced-skeleton :
      (query : Bytes) {xs ys : List Bytes}
      → IsClosed query
      → AreMasked xs ys
      → skeleton outside (braced query xs) ≡ skeleton outside query ++ braced [] ys
  unfolding braced skeleton
  braced-skeleton query c none_left = sym (append-nil (skeleton outside query))
  braced-skeleton query c (more q qs) =
      c.apply _
      ∙ ap (λ (t : Bytes). skeleton outside query ++ (b'{' ∷ t))
          (join-Masks (codes ", ") (omega arith) (more q qs) (b'}' ∷ []))

  -- For filters whose values pass the validator and hold no backslash and no end of line, and whose
  -- labels hold no quote of any kind, no backtick and no `#`, behind a query whose literals and comments are
  -- closed, the lexer of PromQL finds outside of the literals what it finds in the query, and the
  -- matchers as they are with empty values: no byte of a value is read as PromQL.
  pub skeleton-append_label_matchers :
      (query : Bytes) (fs : List FilterCondition)
      → IsClosed query
      → validate_values sprint fs ≡ ok tt
      → All IsLabelled fs
      → skeleton outside (append_label_matchers sprint query fs)
        ≡ skeleton outside query ++ append_label_matchers (λ _. []) [] fs
  unfolding append_label_matchers
  skeleton-append_label_matchers query fs c h a =
      braced-skeleton query c (matchers-AreMasked fs h a)

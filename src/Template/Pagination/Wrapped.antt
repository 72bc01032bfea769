-- ===== src/Template/Pagination/Wrapped.antt =====
-- What stands around the rendered template.
use mountain_king.Errors.{ok, >>=-eq-ok, ok-injective}
use mountain_king.Prelude.{
  ◌≡◌, ◌⊎◌, sym, ap, ◌∙◌, true, Option, none, some, List, [], ◌∷◌, ◌++◌, map, arith, Bytes, codes,
  All, all, join, is_words, is_digit, split, Option-cases, inl, inr, subst,
}
use mountain_king.Prelude.Decimal.{format_int, format_nat-digits}
use mountain_king.Prelude.Int.{ℤ, pos, negsuc}
use mountain_king.Starrocks.Query.Limit.{IsCount}
use mountain_king.Template.FuncMap.{safe_segments, safe_identifier}
use mountain_king.Template.Keys.{TemplateOrderByParam}
use mountain_king.Template.Pagination.{
  limit_with, offset_or_zero, safe_field, safe_parts, field_selection, direction_of, order_parts,
  order_clause, wrap_with_pagination,
}

abbrev pub backticked : Bytes → Bytes
backticked seg = b'`' ∷ (seg ++ b'`' ∷ [])

-- A name of the client as a column: its segments between dots are words, letters, digits and underscores,
-- and each stands in backticks.
abbrev pub IsColumn : Bytes → Bytes → Type 0
IsColumn name column =
    All (λ seg. is_words seg ≡ true) (split name b'.')
    × (column ≡ join (map backticked (split name b'.')) (codes "."))

-- One column for each name, in their order.
abbrev pub AreColumns : List Bytes → List Bytes → Type 0
AreColumns [] [] = Unit
AreColumns (f ∷ fs) (c ∷ cs) = IsColumn f c × AreColumns fs cs
AreColumns fs cs = ⊥

-- One column with a direction for each order of the client.
abbrev pub IsTerm : TemplateOrderByParam → Bytes → Type 0
IsTerm ob term =
    (column : Bytes) × IsColumn ob.field column
    × ((term ≡ column ++ codes " ASC") ⊎ (term ≡ column ++ codes " DESC"))

abbrev pub AreTerms : List TemplateOrderByParam → List Bytes → Type 0
AreTerms [] [] = Unit
AreTerms (ob ∷ obs) (t ∷ ts) = IsTerm ob t × AreTerms obs ts
AreTerms obs ts = ⊥

-- What is selected, and in which order.
abbrev pub IsSelection : List Bytes → Bytes → Type 0
IsSelection [] selection = selection ≡ codes "*"
IsSelection (f ∷ fs) selection =
    (columns : List Bytes) × AreColumns (f ∷ fs) columns × (selection ≡ join columns (codes ", "))

abbrev pub IsOrder : List TemplateOrderByParam → Bytes → Type 0
IsOrder [] order = order ≡ []
IsOrder (ob ∷ obs) order =
    (terms : List Bytes) × AreTerms (ob ∷ obs) terms
    × (order ≡ codes " ORDER BY " ++ join terms (codes ", "))

abbrev pub IsNumber : Bytes → Type 0
IsNumber s = all is_digit s ≡ true

count-IsNumber : (n : ℤ) → IsCount (some n) → IsNumber (format_int n)
unfolding format_int
count-IsNumber (pos n) c = format_nat-digits n
count-IsNumber (negsuc n) c = absurd c

segments-words :
    (segs parts : List Bytes)
    → safe_segments segs ≡ some parts
    → All (λ seg. is_words seg ≡ true) segs × (parts ≡ map backticked segs)
unfolding safe_segments
segments-words [] parts h = (tt, cc)
segments-words (seg ∷ segs) parts h = elim (Option-cases (safe_segments segs)) [
  | inl nothing ↦ let e : none ≡ some parts = ground arith in cc
  | inr (rest, found) ↦
      let words : is_words seg ≡ true = ground arith in
      let whole : some (backticked seg ∷ rest) ≡ some parts = ground arith in
      let (all_words, same) = segments-words segs rest found in
      let e : backticked seg ∷ rest ≡ parts = cc in
      ((words, all_words), sym e ∙ ap (λ ps. backticked seg ∷ ps) same)
]

identifier-IsColumn : (s r : Bytes) → safe_identifier s ≡ some r → IsColumn s r
unfolding safe_identifier
identifier-IsColumn [] r h = cc
identifier-IsColumn (c ∷ s) r h = elim (Option-cases (safe_segments (split (c ∷ s) b'.'))) [
  | inl nothing ↦ let e : none ≡ some r = ground arith in cc
  | inr (parts, found) ↦
      let whole : some (join parts (b'.' ∷ [])) ≡ some r = ground arith in
      let e : join parts (b'.' ∷ []) ≡ r = cc in
      let (words, same) = segments-words (split (c ∷ s) b'.') parts found in
      (words, sym e ∙ ap (λ ps. join ps (codes ".")) same)
]

field-IsColumn : (f r : Bytes) → safe_field f ≡ ok r → IsColumn f r
unfolding safe_field
field-IsColumn f r h = elim (Option-cases (safe_identifier f)) [
  | inl nothing ↦ cc
  | inr (safe, found) ↦
      let e : safe ≡ r = ok-injective (ground arith) in
      subst (IsColumn f) e (identifier-IsColumn f safe found)
]

parts-AreColumns : (fs parts : List Bytes) → safe_parts fs ≡ ok parts → AreColumns fs parts
unfolding safe_parts
parts-AreColumns [] parts h = subst (AreColumns []) (ok-injective h) tt
parts-AreColumns (f ∷ fs) parts h =
    let (safe, first, h') = >>=-eq-ok (safe_field f) _ parts h in
    let (rest, found, e) = >>=-eq-ok (safe_parts fs) _ parts h' in
    subst (AreColumns (f ∷ fs)) (ok-injective e)
      (field-IsColumn f safe first, parts-AreColumns fs rest found)

field_selection-IsSelection :
    (fs : List Bytes) (r : Bytes) → field_selection fs ≡ ok r → IsSelection fs r
unfolding field_selection
field_selection-IsSelection [] r h = sym (ok-injective h)
field_selection-IsSelection (f ∷ fs) r h =
    let (parts, found, e) = >>=-eq-ok (safe_parts (f ∷ fs)) _ r h in
    (parts, parts-AreColumns (f ∷ fs) parts found, sym (ok-injective e))

direction-cases : (d : Bytes) → (direction_of d ≡ codes "ASC") ⊎ (direction_of d ≡ codes "DESC")
unfolding direction_of
direction-cases d = ground arith

direction_of-IsTerm :
    (ob : TemplateOrderByParam) (safe : Bytes)
    → IsColumn ob.field safe
    → IsTerm ob (safe ++ (codes " " ++ direction_of ob.direction))
direction_of-IsTerm ob safe h = elim (direction-cases ob.direction) [
  | inl up ↦ (safe, h, inl (ap (λ d. safe ++ (codes " " ++ d)) up))
  | inr down ↦ (safe, h, inr (ap (λ d. safe ++ (codes " " ++ d)) down))
]

order_parts-AreTerms :
    (obs : List TemplateOrderByParam) (parts : List Bytes)
    → order_parts obs ≡ ok parts
    → AreTerms obs parts
unfolding order_parts
order_parts-AreTerms [] parts h = subst (AreTerms []) (ok-injective h) tt
order_parts-AreTerms (ob ∷ obs) parts h =
    let (safe, first, h') = >>=-eq-ok (safe_field ob.field) _ parts h in
    let (rest, found, e) = >>=-eq-ok (order_parts obs) _ parts h' in
    subst (AreTerms (ob ∷ obs)) (ok-injective e) (
      direction_of-IsTerm ob safe (field-IsColumn ob.field safe first),
      order_parts-AreTerms obs rest found,
    )

order_clause-IsOrder :
    (obs : List TemplateOrderByParam) (r : Bytes) → order_clause obs ≡ ok r → IsOrder obs r
unfolding order_clause
order_clause-IsOrder [] r h = sym (ok-injective h)
order_clause-IsOrder (ob ∷ obs) r h =
    let (parts, found, e) = >>=-eq-ok (order_parts (ob ∷ obs)) _ r h in
    (parts, order_parts-AreTerms (ob ∷ obs) parts found, sym (ok-injective e))

-- What the client adds to a query: columns, orders and two numbers.
pub record Parts (fields : List Bytes) (order_by : List TemplateOrderByParam) : Type 0 where
  pub selection : Bytes
  pub order : Bytes
  pub limit : Bytes
  pub offset : Bytes
  pub is_selection : IsSelection fields selection
  pub is_order : IsOrder order_by order
  pub is_limit : IsNumber limit
  pub is_offset : IsNumber offset

-- The wrapped query holds the rendered template as it is, between fixed texts, the columns, the orders and
-- two numbers in digits: `*` or the fields of the client, and its orders, each with ASC or DESC. Of a
-- name of the client there is nothing but its segments, each made of letters, digits and underscores and
-- each in backticks. The numbers of the page are not to be negative.
pub wrap_with_pagination-IsWrapped :
    (rendered : Bytes) (fields : List Bytes) (order_by : List TemplateOrderByParam)
    (first offset : Option ℤ) (max_result_rows : ℤ) (r : Bytes)
    → wrap_with_pagination rendered fields order_by first offset max_result_rows ≡ ok r
    → IsCount (some (limit_with first max_result_rows))
    → IsCount (some (offset_or_zero offset))
    → (p : Parts fields order_by) × (r
        ≡ codes "SELECT "
          ++ (p.selection
              ++ (codes " FROM ("
                  ++ (rendered
                      ++ (codes ") AS __tq_wrapper__"
                          ++ (p.order
                              ++ (codes " LIMIT "
                                  ++ (p.limit ++ (codes " OFFSET " ++ p.offset)))))))))
unfolding wrap_with_pagination
wrap_with_pagination-IsWrapped rendered fields order_by first offset max_result_rows r h l o =
    let (selection, select_ok, h') = >>=-eq-ok (field_selection fields) _ r h in
    let (order, order_ok, e) = >>=-eq-ok (order_clause order_by) _ r h' in
    (
      record {
        selection = selection;
        order = order;
        limit = format_int (limit_with first max_result_rows);
        offset = format_int (offset_or_zero offset);
        is_selection = field_selection-IsSelection fields selection select_ok;
        is_order = order_clause-IsOrder order_by order order_ok;
        is_limit = count-IsNumber (limit_with first max_result_rows) l;
        is_offset = count-IsNumber (offset_or_zero offset) o;
      },
      sym (ok-injective e),
    )

-- ===== src/Template/Pagination/Tests.antt =====
-- Wrapped queries.
use mountain_king.Errors.{ok, validation_error, err_validation_invalid_field}
use mountain_king.Prelude.{
  is_words, ◌≡◌, refl, none, some, List, [], ◌∷◌, ◌++◌, Bytes, codes, split,
}
use mountain_king.Prelude.Int.{pos}
use mountain_king.Template.Keys.{TemplateOrderByParam}
use mountain_king.Template.Pagination.{wrap_with_pagination, direction_of, limit_with}
use mountain_king.Template.Pagination.Wrapped.{Parts, wrap_with_pagination-IsWrapped}

abbrev order : List TemplateOrderByParam
order = record { field = codes "t.day"; direction = codes "Desc" } ∷ []

abbrev text : Bytes
text =
    codes "SELECT `city` FROM (SELECT 'a;b' FROM t) AS __tq_wrapper__ ORDER BY `t`.`day` DESC"
    ++ codes " LIMIT 11 OFFSET 0"

wrapped :
    wrap_with_pagination
      (codes "SELECT 'a;b' FROM t")
      (codes "city" ∷ [])
      order
      (some (pos 10))
      none
      (pos 100)
    ≡ ok text
unfolding wrap_with_pagination split direction_of is_words
wrapped = refl

refuses_field :
    wrap_with_pagination (codes "SELECT 1") (codes "a b" ∷ []) [] none none (pos 100)
    ≡ validation_error err_validation_invalid_field
unfolding wrap_with_pagination split is_words
refuses_field = refl

wrap_with_pagination-IsWrapped_example :
    (p : Parts (codes "city" ∷ []) order) × (text
      ≡ codes "SELECT "
        ++ (p.selection
            ++ (codes " FROM ("
                ++ (codes "SELECT 'a;b' FROM t"
                    ++ (codes ") AS __tq_wrapper__"
                        ++ (p.order
                            ++ (codes " LIMIT "
                                ++ (p.limit ++ (codes " OFFSET " ++ p.offset)))))))))
unfolding limit_with
wrap_with_pagination-IsWrapped_example =
    wrap_with_pagination-IsWrapped (codes "SELECT 'a;b' FROM t") (codes "city" ∷ []) order
      (some (pos 10)) none (pos 100) text wrapped tt tt

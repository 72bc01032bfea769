-- ===== src/Template/FuncMap/Tests.antt =====
-- The template functions on concrete values.
use mountain_king.Prelude.{
  ◌≡◌, zero, refl, none, some, [], ◌∷◌, ◌++◌, codes, join, split, is_words, replace_all,
}
use mountain_king.Template.FuncMap.{
  quote, safe_string, quote_all, safe_identifier, safe_in_list, safe_like,
}
use mountain_king.Template.FuncMap.Quoting.{scan-quote}
use mountain_king.Template.Sanitizer.{normal, next_is, scan}
use mountain_king.Value.{string_slice}

quotes : quote (codes "O'Brien\\") ≡ codes "'O''Brien\\\\'"
unfolding quote
quotes = refl

two_segments : safe_identifier (codes "a.b") ≡ some (codes "`a`.`b`")
unfolding safe_identifier split is_words join
two_segments = refl

three_segments : safe_identifier (codes "a.b.c") ≡ none
unfolding safe_identifier split
three_segments = refl

in_list_text :
    safe_in_list (string_slice (codes "a" ∷ codes "b's" ∷ [])) ≡ some (codes "'a','b''s'")
unfolding safe_in_list quote_all join safe_string
in_list_text = refl

like_text : safe_like (codes "50%_") ≡ codes "50\\%\\_"
unfolding safe_like replace_all
like_text = refl

scan-quote_example :
    scan zero normal (quote (codes "'; DROP TABLE t; --") ++ codes " LIMIT 1") (codes "SELECT ")
    ≡ scan zero normal (codes " LIMIT 1") (codes "SELECT " ++ quote (codes "'; DROP TABLE t; --"))
scan-quote_example =
    scan-quote (codes "'; DROP TABLE t; --") (codes " LIMIT 1") (codes "SELECT ")
      (unfold next_is in refl)

-- ===== src/Template/Sanitizer/Tests.antt =====
-- The scanner on concrete texts.
use mountain_king.Errors.{ok, err_validation_unsafe_sql, validation_error}
use mountain_king.Prelude.{◌≡◌, refl, codes}
use mountain_king.Template.Sanitizer.{sanitize_sql}
use mountain_king.Template.Sanitizer.Fixpoint.{sanitize_sql_idem}

drops_comments :
    sanitize_sql (codes "SELECT a -- x\nFROM t /* y */ WHERE b = '--;'")
    ≡ ok (codes "SELECT a \nFROM t   WHERE b = '--;'")
unfolding sanitize_sql
drops_comments = refl

keeps_hints : sanitize_sql (codes "SELECT /*+ X(1) */ 1") ≡ ok (codes "SELECT /*+ X(1) */ 1")
unfolding sanitize_sql
keeps_hints = refl

refuses_two_statements :
    sanitize_sql (codes "SELECT 1; DROP TABLE t") ≡ validation_error err_validation_unsafe_sql
unfolding sanitize_sql
refuses_two_statements = refl

-- In a double-quoted text a backslash escapes nothing here: the first one ends at the second quote.
double_quoted_backslash :
    sanitize_sql (codes "SELECT \"a\\\" \"; DROP TABLE t; -- \"")
    ≡ ok (codes "SELECT \"a\\\" \"; DROP TABLE t; -- \"")
unfolding sanitize_sql
double_quoted_backslash = refl

sanitize_sql_idem_example : sanitize_sql (codes "SELECT  1") ≡ ok (codes "SELECT  1")
sanitize_sql_idem_example =
    sanitize_sql_idem (codes "SELECT /* ; */1") (codes "SELECT  1") (unfold sanitize_sql in refl)

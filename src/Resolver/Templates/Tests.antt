-- ===== src/Resolver/Templates/Tests.antt =====
-- An engine that has three rows.
use mountain_king.Errors.{ok}
use mountain_king.Prelude.{ℕ, ◌≡◌, refl, false, none, some, [], ◌∷◌, codes}
use mountain_king.Prelude.Int.{pos, negsuc}
use mountain_king.Resolver.Templates.{panicked, template_query}
use mountain_king.Resolver.Templates.Page.{IsPage, template_query-IsPage}
use mountain_king.Template.Engine.{TemplateQueryRequest, TemplateQueryResult, Run}
use mountain_king.Template.Registry.{take}
use mountain_king.Value.{Fields, field, end, float64}

abbrev row : ℕ → Fields
row n = field (codes "n") (float64 n) end

abbrev engine : TemplateQueryRequest → ℕ → Run ℕ TemplateQueryResult
engine req s = record {
  answer =
      ok (record { data_rows = row 1 ∷ row 2 ∷ row 3 ∷ []; total_count = none; warned = false });
  sent = [];
  state = s;
}

-- Below 0 the engine may even return nothing.
abbrev empty_engine : TemplateQueryRequest → ℕ → Run ℕ TemplateQueryResult
empty_engine req s = record {
  answer = ok (record { data_rows = []; total_count = none; warned = false });
  sent = [];
  state = s;
}

negative_first :
    template_query
      (some empty_engine)
      (pos 100)
      (codes "t")
      end
      []
      (some (negsuc 0))
      none
      []
      false
      none
      0
    ≡ (panicked, 0)
unfolding template_query
negative_first = refl

template_query-IsPage_example :
    IsPage 100
      (row 1 ∷ row 2 ∷ row 3 ∷ row 4 ∷ [])
      (pos 2)
      (template_query
        (some engine)
        (pos 100)
        (codes "t")
        end
        []
        (some (pos 2))
        none
        []
        false
        none
        0).0
unfolding take
template_query-IsPage_example =
    template_query-IsPage engine 99 (codes "t") end [] (pos 2) none [] false none 0
      (row 1 ∷ row 2 ∷ row 3 ∷ row 4 ∷ [])
      (record { data_rows = row 1 ∷ row 2 ∷ row 3 ∷ []; total_count = none; warned = false }) refl
      refl

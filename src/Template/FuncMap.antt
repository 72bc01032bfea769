-- ===== src/Template/FuncMap.antt =====
-- internal/template/funcmap.go: the functions that a template calls on its parameters. The text `s`
-- of a parameter is `fmt.Sprint(v)`, which is the string itself for a string.
mod Quoting
mod Tests
use mountain_king.Prelude.{
  ℕ, Bool, true, false, ◌||◌, Option, none, some, List, [], ◌∷◌, ◌++◌, Bytes, codes, ltb, ◌==◌,
  if◌then◌else◌, length, join, split, replace_all, is_words,
}
use mountain_king.Template.Sanitizer.{single_quote, backslash, backtick}
use mountain_king.Value.{Value, Items, nil, cons, string, slice, string_slice}

unfoldable pub safe_string : Bytes → Bytes
unfolding replace_all
safe_string s =
    replace_all (replace_all (replace_all s 0 []) backslash (backslash ∷ backslash ∷ []))
      single_quote (single_quote ∷ single_quote ∷ [])

unfoldable pub quote : Bytes → Bytes
unfolding safe_string
quote s = single_quote ∷ (safe_string s ++ single_quote ∷ [])

infixl 5 ◌>>=◌
abbrev ◌>>=◌ : {A B : Type 0} → Option A → (A → Option B) → Option B
none >>= f = none
some a >>= f = f a

unfoldable pub safe_segments : List Bytes → Option (List Bytes)
safe_segments [] = some []
safe_segments (seg ∷ segs) =
    if length seg == 0 || ltb 64 (length seg)
    then none
    else if is_words seg
    then (do parts ← safe_segments segs; some ((backtick ∷ (seg ++ backtick ∷ [])) ∷ parts))
    else none

unfoldable pub safe_identifier : Bytes → Option Bytes
unfolding safe_segments
safe_identifier [] = none
safe_identifier (c ∷ s) =
    let segments = split (c ∷ s) b'.' in
    if ltb 2 (length segments)
    then none
    else (do parts ← safe_segments segments; some (join parts (b'.' ∷ [])))

-- `elem.(string)` for each element.
unfoldable pub strings_of : Items → Option (List Bytes)
strings_of nil = some []
strings_of (cons (string s) vs) = do rest ← strings_of vs; some (s ∷ rest)
strings_of (cons v vs) = none

unfoldable pub quote_all : List Bytes → List Bytes
quote_all [] = []
quote_all (item ∷ items) =
    (single_quote ∷ (safe_string item ++ single_quote ∷ [])) ∷ quote_all items

in_list : List Bytes → Option Bytes
in_list [] = none
in_list (item ∷ items) = some (join (quote_all (item ∷ items)) (b',' ∷ []))

unfoldable pub safe_in_list : Value → Option Bytes
unfolding strings_of in_list
safe_in_list (string_slice items) = in_list items
safe_in_list (slice items) = do strs ← strings_of items; in_list strs
safe_in_list v = none

unfoldable pub safe_like : Bytes → Bytes
safe_like s =
    replace_all
      (replace_all (replace_all s backslash (backslash ∷ backslash ∷ [])) b'%'
        (backslash ∷ b'%' ∷ []))
      b'_' (backslash ∷ b'_' ∷ [])

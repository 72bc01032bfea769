-- ===== src/Starrocks/Fragment.antt =====
-- Pieces of SQL text that hold words, blanks, backticks, brackets, commas and comparison signs only,
-- and the placeholders `?` in them: text that no value of a client can be part of.
pub mod Lists
use mountain_king.Errors.{ok}
use mountain_king.Prelude.{
  ℕ, zero, suc, ◌+◌, ◌*◌, ◌≡◌, refl, Bool, true, false, ◌&&◌, ◌||◌, List, [], ◌∷◌, ◌++◌, map,
  String, arith, Bytes, ◌==◌, if◌then◌else◌, length, all, all-append, replicate, is_word, is_words,
  is_digit, join, codes,
}
use mountain_king.Starrocks.Identifier.{
  validate_identifier, validate_mutation_identifier, quote_identifier,
}

abbrev pub is_plain : ℕ → Bool
is_plain c =
    is_word c
    || (c == b' '
        || (c == b','
            || (c == b'('
                || (c == b')'
                    || (c == b'`'
                        || (c == b'?'
                            || (c == b'='
                                || (c == b'<' || (c == b'>' || (c == b'!' || c == b'*'))))))))))

-- The number of placeholders.
unfoldable pub holes : Bytes → ℕ
holes [] = 0
holes (c ∷ s) = (if c == b'?' then 1 else 0) + holes s

pub holes-append : (s t : Bytes) → holes (s ++ t) ≡ holes s + holes t
unfolding holes
holes-append [] t = omega arith
holes-append (c ∷ s) t = omega (arith, holes-append s t)

-- Plain text with `n` placeholders.
pub record IsFragment (n : ℕ) (s : Bytes) : Type 0 where
  pub plain : all is_plain s ≡ true
  pub count : holes s ≡ n

pub nil-IsFragment : IsFragment 0 []
unfolding holes
nil-IsFragment = record { plain = refl; count = refl }

pub append-IsFragment :
    {m n : ℕ} {s t : Bytes} → IsFragment m s → IsFragment n t → IsFragment (m + n) (s ++ t)
append-IsFragment {s} {t} p q = record {
  plain = ground (arith, all-append is_plain s t);
  count = ground (arith, holes-append s t);
}

-- A text as `codes` gives it, by evaluation.
pub codes-IsFragment :
    (s : String) (n : ℕ)
    → (all is_plain (codes s) && holes (codes s) == n) ≡ true
    → IsFragment n (codes s)
codes-IsFragment s n h = record { plain = ground arith; count = ground arith }

word-IsFragment : (s : Bytes) → all is_word s ≡ true → IsFragment 0 s
unfolding holes
word-IsFragment [] h = nil-IsFragment
word-IsFragment (c ∷ s) h = let r = word-IsFragment s (ground arith) in ground arith

pub validate_identifier-IsFragment : (s : Bytes) → validate_identifier s ≡ ok tt → IsFragment 0 s
unfolding validate_identifier is_words
validate_identifier-IsFragment [] h = cc
validate_identifier-IsFragment (c ∷ s) h = word-IsFragment (c ∷ s) (ground arith)

pub validate_mutation_identifier-IsFragment :
    (s : Bytes) → validate_mutation_identifier s ≡ ok tt → IsFragment 0 s
unfolding validate_mutation_identifier
validate_mutation_identifier-IsFragment [] h = cc
validate_mutation_identifier-IsFragment (c ∷ s) h = word-IsFragment (c ∷ s) (ground arith)

pub quote_identifier-IsFragment : (s : Bytes) → IsFragment 0 s → IsFragment 0 (quote_identifier s)
unfolding quote_identifier holes
quote_identifier-IsFragment s p =
    ground (arith, all-append is_plain s (b'`' ∷ []), holes-append s (b'`' ∷ []))

pub digit-IsFragment : (s : Bytes) → all is_digit s ≡ true → IsFragment 0 s
unfolding holes
digit-IsFragment [] h = nil-IsFragment
digit-IsFragment (c ∷ s) h = let r = digit-IsFragment s (ground arith) in ground arith

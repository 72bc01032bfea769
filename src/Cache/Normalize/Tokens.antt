-- ===== src/Cache/Normalize/Tokens.antt =====
-- What the tokens of a query keep of it.
use mountain_king.Cache.Normalize.{flush, tokenize_from, tokenize, is_punctuation}
use mountain_king.Middleware.AuthFailureLimiter.ClientIp.{is_space}
use mountain_king.Prelude.{
  ℕ, zero, suc, Bool, ◌≡◌, refl, ap, sym, ◌∙◌, true, false, List, [], ◌∷◌, ◌++◌, append_assoc,
  arith, Bytes, codes, concat, has_prefix, if◌then◌else◌,
}

-- A text without its spaces, behind the first `skip` bytes.
unfoldable spaceless_from : ℕ → Bytes → Bytes
unfolding is_space
spaceless_from skip [] = []
spaceless_from (suc skip) (c ∷ s) = spaceless_from skip s
spaceless_from zero (c ∷ s) =
    let rest = spaceless_from zero s in if is_space c then rest else c ∷ rest

concat-flush :
    (current : Bytes) (tokens : List Bytes)
    → concat (flush current tokens) ≡ current ++ concat tokens
unfolding flush
concat-flush [] tokens = refl
concat-flush (c ∷ current) tokens = refl

spread :
    (r : ℕ) (s : Bytes)
    → has_prefix (r ∷ s) (codes "...") ≡ true
    → spaceless_from zero (r ∷ s) ≡ codes "..." ++ spaceless_from 2 s
unfolding has_prefix spaceless_from is_space
spread r [] h = ground arith
spread r (a ∷ []) h = ground arith
spread r (a ∷ (b ∷ s)) h = ground arith

chosen :
    (a b p : Bool) (t u v w : List Bytes) (out : Bytes)
    → (a ≡ true → concat t ≡ out)
    → (b ≡ true → concat u ≡ out)
    → (a ≡ false → concat v ≡ out)
    → (a ≡ false → concat w ≡ out)
    → concat (if a then t else if b then u else if p then v else w) ≡ out
chosen true b p t u v w out h i j k = h refl
chosen false true p t u v w out h i j k = i refl
chosen false false true t u v w out h i j k = j refl
chosen false false false t u v w out h i j k = k refl

spaceless_kept :
    (r : ℕ) (s : Bytes)
    → is_space r ≡ false
    → r ∷ spaceless_from zero s ≡ spaceless_from zero (r ∷ s)
unfolding spaceless_from
spaceless_kept r s h = rw h refl

spaceless_dropped :
    (r : ℕ) (s : Bytes) → is_space r ≡ true → spaceless_from zero s ≡ spaceless_from zero (r ∷ s)
unfolding spaceless_from
spaceless_dropped r s h = rw h refl

concat-tokenize_from :
    (skip : ℕ) (current s : Bytes)
    → concat (tokenize_from skip current s) ≡ current ++ spaceless_from skip s
unfolding tokenize_from spaceless_from
concat-tokenize_from skip current [] = concat-flush current []
concat-tokenize_from (suc skip) current (r ∷ s) = concat-tokenize_from skip current s
concat-tokenize_from zero current (r ∷ s) =
    let cleared = concat-tokenize_from zero [] s in
    chosen (is_space r) (has_prefix (r ∷ s) (codes "...")) (is_punctuation r) _ _ _ _ _
      (λ h. concat-flush current _ ∙ ap (λ t. current ++ t) (cleared ∙ spaceless_dropped r s h))
      (λ h.
        concat-flush current _
        ∙ ap (λ t. current ++ t)
            (ap (λ t. codes "..." ++ t) (concat-tokenize_from 2 [] s) ∙ sym (spread r s h)))
      (λ h.
        concat-flush current _
        ∙ ap (λ t. current ++ t) (ap (λ t. r ∷ t) cleared ∙ spaceless_kept r s h))
      (λ h.
        concat-tokenize_from zero (current ++ r ∷ []) s
        ∙ append_assoc current (r ∷ []) _
        ∙ ap (λ t. current ++ t) (spaceless_kept r s h))

-- The tokens of a query hold all of it but the spaces, in order.
concat-tokenize : (s : Bytes) → concat (tokenize s) ≡ spaceless_from zero s
unfolding tokenize
concat-tokenize s = concat-tokenize_from zero [] s

-- ===== src/Template/Keys/Collisions.antt =====
-- Requests that share a key.
use mountain_king.Prelude.{
  ◌≡◌, ◌≢◌, ◌<◌, length, length-append, arith, refl, ap, ◌∙◌, Option, List, ◌∷◌, ◌++◌, Bytes, codes,
  append_assoc, join, false,
}
use mountain_king.Prelude.Int.{ℤ}
use mountain_king.Value.{Value, Fields, field, end, string}
use mountain_king.Template.Keys.{
  TemplateOrderByParam, less, sort_entries, insert_entry, pairs, build_sorted_params,
  build_canonical_string, generate_cache_key,
}

-- Two parameters, of these texts.
abbrev pub two : Bytes → Bytes → Bytes → Bytes → Fields
two a b s t = field a (string s) (field b (string t) end)

module _ (sprint : Value → Bytes) (text_of : (s : Bytes) → sprint (string s) ≡ s) where
  sorted_two :
      (a b s t : Bytes)
      → less b a ≡ false
      → build_sorted_params sprint (two a b s t)
        ≡ a ++ (codes "=" ++ (s ++ (codes "&" ++ (b ++ (codes "=" ++ t)))))
  unfolding build_sorted_params sort_entries insert_entry pairs join
  sorted_two a b s t h =
      rw (h, text_of s, text_of t) (append_assoc a _ _ ∙ ap (λ (r : Bytes). a ++ (b'=' ∷ r)) refl)

  -- Parameters that differ in their texts are different.
  two-differ : (a b x z z' : Bytes) (s : Bytes) → length z < length z' → two a b s z ≢ two a b x z'
  two-differ a b x z z' s longer same =
      let texts : z ≡ z' = cc in let sizes = ap length texts in absurd (omega arith)

  moved-longer : (b y z : Bytes) → length z < length (y ++ (codes "&" ++ (b ++ (codes "=" ++ z))))
  moved-longer b y z = omega (
    arith,
    length-append y (codes "&" ++ (b ++ (codes "=" ++ z))),
    length-append b (codes "=" ++ z),
  )

  -- Requests with two different lists of parameters have one key: the text of a value is not escaped,
  -- so the end of the first parameter's value can be moved into the second's. The names of the
  -- parameters are to be in order, and the text of a text is to be the text itself.
  pub generate_cache_key-two :
      (hash : Bytes → Bytes) (name a b x y z : Bytes) (fields : List Bytes)
      (first offset : Option ℤ) (order_by : List TemplateOrderByParam)
      → less b a ≡ false
      → (two a b (x ++ (codes "&" ++ (b ++ (codes "=" ++ y)))) z
          ≢ two a b x (y ++ (codes "&" ++ (b ++ (codes "=" ++ z)))))
        × (generate_cache_key sprint hash name
              (two a b (x ++ (codes "&" ++ (b ++ (codes "=" ++ y)))) z)
              fields
              first
              offset
              order_by
            ≡ generate_cache_key sprint hash name
                (two a b x (y ++ (codes "&" ++ (b ++ (codes "=" ++ z)))))
                fields
                first
                offset
                order_by)
  unfolding generate_cache_key build_canonical_string
  generate_cache_key-two hash name a b x y z fields first offset order_by h = (
    two-differ a b x z (y ++ (codes "&" ++ (b ++ (codes "=" ++ z))))
        (x ++ (codes "&" ++ (b ++ (codes "=" ++ y)))) (moved-longer b y z),
    rw
        (
          sorted_two a b (x ++ (codes "&" ++ (b ++ (codes "=" ++ y)))) z h,
          sorted_two a b x (y ++ (codes "&" ++ (b ++ (codes "=" ++ z)))) h,
        )
        (simp (append_assoc)),
  )

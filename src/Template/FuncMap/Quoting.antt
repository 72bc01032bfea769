-- ===== src/Template/FuncMap/Quoting.antt =====
-- Values that `quote` and `safeInList` have written stay inside their quotes when the sanitizer reads
-- them.
use mountain_king.Prelude.{
  ℕ, zero, ◌≡◌, ◌≡⟨◌⟩◌, ◌∎, refl, false, List, [], ◌∷◌, ◌++◌, append-nil, append_assoc, arith,
  Bytes, ◌==◌, if◌then◌else◌, join, replace_all,
}
use mountain_king.Template.FuncMap.{safe_string, quote, quote_all}
use mountain_king.Template.Sanitizer.{
  normal, in_single_quote, single_quote, backslash, next_is, round, scan,
}

-- What `safeString` makes of one byte.
escape_byte : ℕ → Bytes
escape_byte c =
    if c == 0
    then []
    else if c == backslash
    then backslash ∷ backslash ∷ []
    else if c == single_quote
    then single_quote ∷ single_quote ∷ []
    else c ∷ []

safe_string-cons : (c : ℕ) (s : Bytes) → safe_string (c ∷ s) ≡ escape_byte c ++ safe_string s
unfolding safe_string replace_all escape_byte
safe_string-cons c s = ground arith

scan-escape_byte :
    (c : ℕ) (rest out : Bytes)
    → scan zero in_single_quote (escape_byte c ++ rest) out
      ≡ scan zero in_single_quote rest (out ++ escape_byte c)
unfolding scan round escape_byte next_is
scan-escape_byte c rest out = ground (arith, append-nil out)

-- Inside a quoted text the scanner copies an escaped one, up to the quote behind it.
scan-safe_string :
    (s rest out : Bytes)
    → scan zero in_single_quote (safe_string s ++ rest) out
      ≡ scan zero in_single_quote rest (out ++ safe_string s)
scan-safe_string [] rest out = unfold safe_string replace_all in rw append-nil
scan-safe_string (c ∷ s) rest out =
    simp (safe_string-cons, append_assoc, scan-escape_byte, scan-safe_string s)

scan-close :
    (rest out : Bytes)
    → next_is single_quote rest ≡ false
    → scan zero in_single_quote (single_quote ∷ rest) out
      ≡ scan zero normal rest (out ++ single_quote ∷ [])
unfolding scan round next_is
scan-close rest out h = ground arith

scan-open :
    (rest out : Bytes)
    → scan zero normal (single_quote ∷ rest) out
      ≡ scan zero in_single_quote rest (out ++ single_quote ∷ [])
unfolding scan round
scan-open rest out = refl

-- Whatever a value holds, in the normal state the sanitizer copies its `quote` and is in the normal
-- state again behind it, if no further quote follows: no byte of the value is read as SQL, and
-- nothing of it is dropped or refused.
pub scan-quote :
    (s rest out : Bytes)
    → next_is single_quote rest ≡ false
    → scan zero normal (quote s ++ rest) out ≡ scan zero normal rest (out ++ quote s)
unfolding quote
scan-quote s rest out h =
    scan zero normal (quote s ++ rest) out
    ≡⟨ scan-open _ out ⟩
      scan zero in_single_quote ((safe_string s ++ single_quote ∷ []) ++ rest)
        (out ++ single_quote ∷ [])
    ≡⟨ (simp (append_assoc, scan-safe_string s)) ⟩
      scan zero in_single_quote (single_quote ∷ rest) (out ++ single_quote ∷ safe_string s)
    ≡⟨ scan-close rest _ h ⟩
      scan zero normal rest ((out ++ single_quote ∷ safe_string s) ++ single_quote ∷ [])
    ≡⟨ (simp append_assoc) ⟩ scan zero normal rest (out ++ quote s) ∎

scan_comma :
    (rest out : Bytes)
    → scan zero normal (b',' ∷ rest) out ≡ scan zero normal rest (out ++ b',' ∷ [])
unfolding scan round
scan_comma rest out = refl

-- The same of the list of values that `safeInList` writes.
pub scan-quote_all :
    (items : List Bytes) (rest out : Bytes)
    → next_is single_quote rest ≡ false
    → scan zero normal (join (quote_all items) (b',' ∷ []) ++ rest) out
      ≡ scan zero normal rest (out ++ join (quote_all items) (b',' ∷ []))
unfolding quote_all join scan quote
scan-quote_all [] rest out h = rw append-nil
scan-quote_all (item ∷ []) rest out h = unfold quote in scan-quote item rest out h
scan-quote_all (item ∷ item' ∷ items) rest out h =
    let tail = join (quote_all (item' ∷ items)) (b',' ∷ []) in
    scan zero normal ((quote item ++ (b',' ∷ tail)) ++ rest) out
    ≡⟨ (simp append_assoc) ⟩ scan zero normal (quote item ++ (b',' ∷ (tail ++ rest))) out
    ≡⟨ scan-quote item (b',' ∷ (tail ++ rest)) out (unfold next_is in refl) ⟩
      scan zero normal (b',' ∷ (tail ++ rest)) (out ++ quote item)
    ≡⟨ scan_comma _ _ ⟩ scan zero normal (tail ++ rest) ((out ++ quote item) ++ b',' ∷ [])
    ≡⟨ scan-quote_all (item' ∷ items) rest _ h ⟩
      scan zero normal rest (((out ++ quote item) ++ b',' ∷ []) ++ tail)
    ≡⟨ (simp append_assoc) ⟩ scan zero normal rest (out ++ (quote item ++ (b',' ∷ tail))) ∎

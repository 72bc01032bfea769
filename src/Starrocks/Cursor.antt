-- ===== src/Starrocks/Cursor.antt =====
-- Cursors of pages: `encodeCursor` of internal/graphql/resolver/query.go writes them into a
-- connection's edges, `decodeCursor` of internal/adapter/starrocks/query_builder.go reads them back.
use mountain_king.Prelude.{
  ℕ, ◌+◌, ◌-◌, ◌*◌, ◌/◌, ◌%◌, ◌<◌, ◌^◌, ◌≡◌, refl, none, some, [], ◌∷◌, ◌++◌, arith, Bytes, codes,
  ltb, ◌==◌, if◌then◌else◌,
}
use mountain_king.Prelude.Decimal.{format_int, format_nat, sscanf_int, sscanf_int-format_nat}
use mountain_king.Prelude.Int.{ℤ, pos, negsuc}

-- `base64.StdEncoding`: the letter of six bits, and the encoding of groups of three bytes.
base64_letter : ℕ → ℕ
base64_letter n =
    if ltb n 26
    then b'A' + n
    else if ltb n 52
    then b'a' + (n - 26)
    else if ltb n 62
    then b'0' + (n - 52)
    else if n == 62
    then b'+'
    else b'/'

unfoldable pub base64_encode : Bytes → Bytes
unfolding base64_letter
base64_encode [] = []
base64_encode (a ∷ []) = base64_letter (a / 4) ∷ base64_letter (a % 4 * 16) ∷ b'=' ∷ b'=' ∷ []
base64_encode (a ∷ b ∷ []) =
    base64_letter (a / 4)
    ∷ base64_letter (a % 4 * 16 + b / 16)
    ∷ base64_letter (b % 16 * 4)
    ∷ b'='
    ∷ []
base64_encode (a ∷ b ∷ c ∷ s) =
    base64_letter (a / 4)
    ∷ base64_letter (a % 4 * 16 + b / 16)
    ∷ base64_letter (b % 16 * 4 + c / 64)
    ∷ base64_letter (c % 64)
    ∷ base64_encode s

unfoldable pub encode_cursor : ℤ → Bytes
unfolding base64_encode format_int
encode_cursor index = base64_encode (codes "cursor:" ++ format_int index)

unfoldable pub decode_cursor : Bytes → ℤ
unfolding sscanf_int
decode_cursor cursor = elim (sscanf_int cursor) [
  | none ↦ negsuc 0
  | some (pos n) ↦ pos n
  | some (negsuc n) ↦ negsuc 0
]

-- A cursor that is the decimal print of an offset is decoded to it.
pub decode_cursor-format_nat : (n : ℕ) → n < 2 ^ 63 → decode_cursor (format_nat n) ≡ pos n
unfolding decode_cursor
decode_cursor-format_nat n h = ground (arith, sscanf_int-format_nat n h)

-- A cursor that the server itself writes is never decoded: the result is the -1 of an error.
pub decode_cursor-encode_cursor : (index : ℤ) → decode_cursor (encode_cursor index) ≡ negsuc 0
unfolding decode_cursor encode_cursor sscanf_int
decode_cursor-encode_cursor index = refl

-- ===== src/User/Columns.antt =====
-- What pkg/user takes of Go's standard library to cut, join, read and write columns:
-- `bytes.SplitN`, `bytes.Split`, `bytes.Join`, `strconv.ParseUint` and `strconv.FormatUint`; and
-- `parseUint32Column` of pkg/user/etc-unix.go.
pub mod Decimal
pub mod Parts
use bifroest.Prelude.{
  ℕ, zero, suc, ◌+◌, ◌-◌, ◌*◌, ◌/◌, ◌%◌, ◌^◌, Bool, true, false, ◌||◌, List, [], ◌∷◌, ◌++◌, Option,
  none, some, Bytes, ltb, leb, ◌==◌, if◌then◌else◌, ok, err,
}
use bifroest.User.Errors.{EtcError, Result}

-- Puts a byte in front of the first part.
unfoldable pub cons_first : ℕ → List Bytes → List Bytes
cons_first c [] = (c ∷ []) ∷ []
cons_first c (p ∷ ps) = (c ∷ p) ∷ ps

-- `bytes.SplitN(s, sep, n + 1)` for a separator of one byte: at most `n` cuts, the rest uncut.
unfoldable pub split_n : ℕ → ℕ → Bytes → List Bytes
unfolding cons_first
split_n sep n [] = [] ∷ []
split_n sep zero (c ∷ s) = (c ∷ s) ∷ []
split_n sep (suc n) (c ∷ s) =
    let cut = [] ∷ split_n sep n s in
    let keep = cons_first c (split_n sep (suc n) s) in if c == sep then cut else keep

-- `bytes.Split(s, sep)`: every separator is a cut.
unfoldable pub split : ℕ → Bytes → List Bytes
unfolding cons_first
split sep [] = [] ∷ []
split sep (c ∷ s) = let rest = split sep s in if c == sep then [] ∷ rest else cons_first c rest

-- `bytes.Join(parts, sep)`
unfoldable pub join : ℕ → List Bytes → Bytes
join sep [] = []
join sep (p ∷ []) = p
join sep (p ∷ q ∷ ps) = p ++ sep ∷ join sep (q ∷ ps)

abbrev pub u32_mod : ℕ
u32_mod = 2 ^ 32

-- The digits of `strconv.ParseUint(s, 10, 32)` behind the number `n`.
pub scan_digits : Bytes → ℕ → Option ℕ
scan_digits [] n = some n
scan_digits (c ∷ s) n =
    if ltb c b'0' || ltb b'9' c
    then none
    else if leb u32_mod (n * 10 + (c - b'0'))
    then none
    else scan_digits s (n * 10 + (c - b'0'))

-- `strconv.ParseUint(s, 10, 32)`; `none` is an error.
unfoldable pub parse_uint : Bytes → Option ℕ
unfolding scan_digits
parse_uint [] = none
parse_uint (c ∷ s) = scan_digits (c ∷ s) 0

-- The digits of `n`, at most as many as the fuel, in front of `out`.
pub put_digits : ℕ → ℕ → Bytes → Bytes
put_digits zero n out = out
put_digits (suc f) n out =
    let more = put_digits f (n / 10) ((b'0' + n % 10) ∷ out) in
    if ltb n 10 then (b'0' + n) ∷ out else more

-- `strconv.FormatUint(n, 10)`; a uint64 has twenty digits at most.
unfoldable pub format_uint : ℕ → Bytes
unfolding put_digits
format_uint n = put_digits 20 n []

-- The empty column is an error only where an error for it is given; the second value is hasValue.
parse_column : Bytes → Option EtcError → EtcError → Result (ℕ × Bool)
parse_column [] (some e) err_illegal = err e
parse_column [] none err_illegal = ok (0, false)
parse_column (c ∷ s) err_empty err_illegal = elim (parse_uint (c ∷ s)) [
  | none ↦ err err_illegal
  | some v ↦ ok (v, true)
]

-- `parseUint32Column`, handed the column itself.
unfoldable pub parse_uint32_column : Bytes → Option EtcError → EtcError → Result (ℕ × Bool)
unfolding parse_column
parse_uint32_column column err_empty err_illegal = parse_column column err_empty err_illegal

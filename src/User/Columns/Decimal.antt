-- ===== src/User/Columns/Decimal.antt =====
-- Reading back the decimal print of a number.
use bifroest.Prelude.{
  ℕ, zero, suc, ◌+◌, ◌-◌, ◌*◌, ◌/◌, ◌%◌, ◌^◌, ◌≤◌, ◌<◌, ◌≡◌, ◌≢◌, refl, Bool, true, inl, inr,
  Bool-cases, ltb, [], ◌∷◌, Option, none, some, Bytes, All, ◌∙◌, arith, ok,
}
use native.Mathlib.Nat.{pow-suc}
use bifroest.User.Errors.{EtcError}
use bifroest.User.Columns.{
  u32_mod, scan_digits, parse_uint, put_digits, format_uint, parse_uint32_column,
}

pub record IsDigit (c : ℕ) : Type 0 where
  pub lower : b'0' ≤ c
  pub upper : c ≤ b'9'

scan_last :
    (n : ℕ) (out : Bytes)
    → n < u32_mod
    → scan_digits ((b'0' + n % 10) ∷ out) (n / 10) ≡ scan_digits out n
unfolding scan_digits
scan_last n out h = ground arith

scan_only : (n : ℕ) (out : Bytes) → n < 10 → scan_digits ((b'0' + n) ∷ out) 0 ≡ scan_digits out n
unfolding scan_digits
scan_only n out h = ground arith

tenth_lt : (f n : ℕ) → n < 10 ^ suc f → n / 10 < 10 ^ f
tenth_lt f n h = omega (arith, pow-suc 10 f)

scan-put :
    (f n : ℕ) (out : Bytes)
    → n < 10 ^ f
    → n < u32_mod
    → scan_digits (put_digits f n out) 0 ≡ scan_digits out n
unfolding put_digits
scan-put zero n out h fits = rw (let e : n ≡ 0 = omega arith in e)
scan-put (suc f) n out h fits = ground (
  arith,
  scan_only n out,
  scan_last n out fits,
  scan-put f (n / 10) ((b'0' + n % 10) ∷ out) (tenth_lt f n h) (omega arith),
)

put_digits-IsDigit : (f n : ℕ) (out : Bytes) → All IsDigit out → All IsDigit (put_digits f n out)
unfolding put_digits
put_digits-IsDigit zero n out h = h
put_digits-IsDigit (suc f) n out h = elim (Bool-cases (ltb n 10)) [
  | inl small ↦ rw small (ground arith, h)
  | inr big ↦ rw big (put_digits-IsDigit f (n / 10) _ (omega arith, h))
]

pub format_uint-IsDigit : (n : ℕ) → All IsDigit (format_uint n)
unfolding format_uint
format_uint-IsDigit n = put_digits-IsDigit 20 n [] tt

put_digits-ne-nil : (f n : ℕ) (out : Bytes) → out ≢ [] → put_digits f n out ≢ []
unfolding put_digits
put_digits-ne-nil zero n out h = h
put_digits-ne-nil (suc f) n out h =
    ground (arith, put_digits-ne-nil f (n / 10) ((b'0' + n % 10) ∷ out))

pub format_uint-ne-nil : (n : ℕ) → format_uint n ≢ []
unfolding format_uint put_digits
format_uint-ne-nil n = ground (arith, put_digits-ne-nil 19 (n / 10) ((b'0' + n % 10) ∷ []))

scan_of-parse : (s : Bytes) → s ≢ [] → parse_uint s ≡ scan_digits s 0
scan_of-parse [] h = absurd (h refl)
scan_of-parse (c ∷ s) h = unfold parse_uint in refl

parse_column-some :
    (s : Bytes) (a : Option EtcError) (b : EtcError) {v : ℕ}
    → s ≢ []
    → parse_uint s ≡ some v
    → parse_uint32_column s a b ≡ ok (v, true)
unfolding parse_uint32_column
parse_column-some [] a b h e = absurd (h refl)
parse_column-some (c ∷ s) a b h e = ground arith

-- Every uint32 is read back from its decimal print.
pub parse_uint-format_uint : (n : ℕ) → n < u32_mod → parse_uint (format_uint n) ≡ some n
parse_uint-format_uint n h =
    scan_of-parse _ (format_uint-ne-nil n)
    ∙ unfold format_uint in scan-put 20 n [] (omega arith) h ∙ unfold scan_digits in refl

-- A column that holds the print of a uint32 is read as that number, and has a value.
pub parse_column-format_uint :
    (n : ℕ) (a : Option EtcError) (b : EtcError)
    → n < u32_mod
    → parse_uint32_column (format_uint n) a b ≡ ok (n, true)
parse_column-format_uint n a b h =
    parse_column-some (format_uint n) a b (format_uint-ne-nil n) (parse_uint-format_uint n h)

scan_digits-lt : (s : Bytes) (n v : ℕ) → n < u32_mod → scan_digits s n ≡ some v → v < u32_mod
unfolding scan_digits
scan_digits-lt [] n v fits h = ground arith
scan_digits-lt (c ∷ s) n v fits h = ground (arith, scan_digits-lt s (n * 10 + (c - b'0')) v)

pub parse_uint-lt : (s : Bytes) (v : ℕ) → parse_uint s ≡ some v → v < u32_mod
unfolding parse_uint
parse_uint-lt [] v h = cc
parse_uint-lt (c ∷ s) v h = scan_digits-lt (c ∷ s) 0 v (omega arith) h

-- What a column yields is a uint32: nothing wraps around.
pub parse_column-lt :
    (s : Bytes) (a : Option EtcError) (b : EtcError) (v : ℕ) (has : Bool)
    → parse_uint32_column s a b ≡ ok (v, has)
    → v < u32_mod
unfolding parse_uint32_column
parse_column-lt [] (some e) b v has h = ground arith
parse_column-lt [] none b v has h = ground arith
parse_column-lt (c ∷ s) a b v has h = ground (arith, parse_uint-lt (c ∷ s) v)

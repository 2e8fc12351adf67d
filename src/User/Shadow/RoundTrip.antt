-- ===== src/User/Shadow/RoundTrip.antt =====
-- Entries of shadow are written and read back without loss.
use bifroest.Prelude.{
  ℕ, ◌<◌, ◌≡◌, refl, subst, Bool, true, false, List, [], ◌∷◌, none, some, Bytes, length, All, arith,
  ok, first_step,
}
use bifroest.User.Errors.{
  EtcError, empty_last_changed_at, illegal_last_changed_at, illegal_minimum_age, empty_maximum_age,
  illegal_maximum_age, illegal_warn_age, illegal_inactive_age, illegal_expire_at,
}
use bifroest.User.Names.Safe.{IsAccepted, user_name-IsAccepted}
use bifroest.User.Columns.{u32_mod, format_uint, parse_uint32_column}
use bifroest.User.Columns.Decimal.{format_uint-IsDigit, parse_column-format_uint, parse_column-lt}
use bifroest.User.Value.{IsPlain, EntryLaws}
use bifroest.User.Value.Plain.{safe-IsPlain, digits-IsPlain}
use bifroest.User.Shadow.{
  EtcShadowEntry, etc_shadow_colons, optional, columns, validate, finish, decode, encode, value,
}

-- A number that may be absent: a uint32, and 0 where it is absent.
pub record IsOptional (n : ℕ) (has : Bool) : Type 0 where
  pub fits : n < u32_mod
  pub absent : has ≡ false → n ≡ 0

pub record IsWellFormed (e : EtcShadowEntry) : Type 0 where
  pub password : All IsPlain e.password
  pub changed : e.last_changed_at_in_days < u32_mod
  pub minimum : e.minimum_age_in_days < u32_mod
  pub maximum : e.maximum_age_in_days < u32_mod
  pub warn : IsOptional e.warn_age_in_days e.has_warn_age
  pub inactive : IsOptional e.inactive_age_in_days e.has_inactive_age
  pub expire : IsOptional e.expire_at_ts_in_days e.has_expire

optional-IsPlain : (n : ℕ) (has : Bool) → All IsPlain (optional n has)
unfolding optional
optional-IsPlain n true = digits-IsPlain (format_uint n) (format_uint-IsDigit n)
optional-IsPlain n false = tt

parse-optional :
    (n : ℕ) (has : Bool) (e : EtcError)
    → IsOptional n has
    → parse_uint32_column (optional n has) none e ≡ ok (n, has)
unfolding optional
parse-optional n true e c = parse_column-format_uint n none e c.fits
parse-optional n false e c = unfold parse_uint32_column in rw (c.absent refl)

parse_absent :
    (s : Bytes) (e : EtcError) (r : ℕ × Bool)
    → parse_uint32_column s none e ≡ ok r
    → r.1 ≡ false
    → r.0 ≡ 0
unfolding parse_uint32_column
parse_absent [] e r h = ground arith
parse_absent (c ∷ s) e r h = ground arith

parse_column-IsOptional :
    (s : Bytes) (e : EtcError) (r : ℕ × Bool)
    → parse_uint32_column s none e ≡ ok r
    → IsOptional r.0 r.1
parse_column-IsOptional s e r h = record {
  fits = parse_column-lt s none e r.0 r.1 h;
  absent = parse_absent s e r h;
}

validate-IsAccepted :
    (e : EtcShadowEntry) (allow_bad : Bool) → validate e allow_bad ≡ ok tt → IsAccepted e.name
unfolding validate
validate-IsAccepted e allow_bad h = user_name-IsAccepted e.name allow_bad (ground arith)

encode-eq-ok :
    (e : EtcShadowEntry) (allow_bad : Bool) (cols : List Bytes)
    → encode e allow_bad ≡ ok cols
    → (validate e allow_bad ≡ ok tt) × (cols ≡ columns e)
unfolding encode
encode-eq-ok e allow_bad cols h = (ground arith, ground arith)

-- An entry that is written is read back unchanged, absent ages included, if no colon, newline or
-- return stands in its password, its ages are uint32, and those that are absent are 0.
pub decode-encode_shadow :
    (e : EtcShadowEntry) (allow_bad : Bool) (cols : List Bytes)
    → IsWellFormed e
    → encode e allow_bad ≡ ok cols
    → decode cols allow_bad ≡ ok e
unfolding decode
decode-encode_shadow e allow_bad cols wf h =
    let (valid, shape) = encode-eq-ok e allow_bad cols h in
    rw (
      shape,
      parse_column-format_uint e.last_changed_at_in_days (some empty_last_changed_at)
          illegal_last_changed_at wf.changed,
      parse_column-format_uint e.minimum_age_in_days none illegal_minimum_age wf.minimum,
      parse_column-format_uint e.maximum_age_in_days (some empty_maximum_age) illegal_maximum_age
          wf.maximum,
      parse-optional e.warn_age_in_days e.has_warn_age illegal_warn_age wf.warn,
      parse-optional e.inactive_age_in_days e.has_inactive_age illegal_inactive_age wf.inactive,
      parse-optional e.expire_at_ts_in_days e.has_expire illegal_expire_at wf.expire,
      valid,
    )

finish-eq-ok :
    (u : Bytes) (allow_bad : Bool) (read e : EtcShadowEntry)
    → finish u allow_bad read ≡ ok e
    → (read ≡ e) × (validate e allow_bad ≡ ok tt)
unfolding finish
finish-eq-ok u allow_bad read e h = ground arith

-- What a successful `decode` has read.
decode-eq-ok :
    (n p c mi ma w i x u : Bytes) (allow_bad : Bool) (e : EtcShadowEntry)
    → decode (n ∷ p ∷ c ∷ mi ∷ ma ∷ w ∷ i ∷ x ∷ u ∷ []) allow_bad ≡ ok e
    → (All IsPlain p → IsWellFormed e) × (validate e allow_bad ≡ ok tt)
unfolding decode
decode-eq-ok n p c mi ma w i x u allow_bad e eq =
    let (c', is_c, eq1) =
      first_step (parse_uint32_column c (some empty_last_changed_at) illegal_last_changed_at) _
        eq in
    let (mi', is_mi, eq2) = first_step (parse_uint32_column mi none illegal_minimum_age) _ eq1 in
    let (ma', is_ma, eq3) =
      first_step (parse_uint32_column ma (some empty_maximum_age) illegal_maximum_age) _ eq2 in
    let (w', is_w, eq4) = first_step (parse_uint32_column w none illegal_warn_age) _ eq3 in
    let (i', is_i, eq5) = first_step (parse_uint32_column i none illegal_inactive_age) _ eq4 in
    let (x', is_x, eq6) = first_step (parse_uint32_column x none illegal_expire_at) _ eq5 in
    let (same, valid) = finish-eq-ok u allow_bad _ e eq6 in
    (
      λ plain. subst IsWellFormed same (record {
        password = plain;
        changed = parse_column-lt c _ _ c'.0 c'.1 is_c;
        minimum = parse_column-lt mi _ _ mi'.0 mi'.1 is_mi;
        maximum = parse_column-lt ma _ _ ma'.0 ma'.1 is_ma;
        warn = parse_column-IsOptional w _ w' is_w;
        inactive = parse_column-IsOptional i _ i' is_i;
        expire = parse_column-IsOptional x _ x' is_x;
      }),
      valid,
    )

pub decode-IsWellFormed :
    (cols : List Bytes) (allow_bad : Bool) (e : EtcShadowEntry)
    → All (All IsPlain) cols
    → decode cols allow_bad ≡ ok e
    → IsWellFormed e
decode-IsWellFormed (n ∷ p ∷ c ∷ mi ∷ ma ∷ w ∷ i ∷ x ∷ u ∷ []) allow_bad e plain eq =
    (decode-eq-ok n p c mi ma w i x u allow_bad e eq).0 plain.1.0
decode-IsWellFormed _ allow_bad e plain eq = unfold decode in cc

pub encode_decoded :
    (cols : List Bytes) (allow_bad : Bool) (e : EtcShadowEntry)
    → decode cols allow_bad ≡ ok e
    → (out : List Bytes) × (encode e allow_bad ≡ ok out)
encode_decoded (n ∷ p ∷ c ∷ mi ∷ ma ∷ w ∷ i ∷ x ∷ u ∷ []) allow_bad e eq =
    (columns e, unfold encode in rw ((decode-eq-ok n p c mi ma w i x u allow_bad e eq).1))
encode_decoded _ allow_bad e eq = unfold decode in cc

pub encode-IsPlain :
    (e : EtcShadowEntry) (allow_bad : Bool) (cols : List Bytes)
    → IsWellFormed e
    → encode e allow_bad ≡ ok cols
    → All (All IsPlain) cols × (length cols ≡ etc_shadow_colons)
encode-IsPlain e allow_bad cols wf h =
    let (valid, shape) = encode-eq-ok e allow_bad cols h in
    rw shape (
      (assumption (
        safe-IsPlain e.name (validate-IsAccepted e allow_bad valid).safe,
        digits-IsPlain (format_uint e.last_changed_at_in_days) (format_uint-IsDigit _),
        digits-IsPlain (format_uint e.minimum_age_in_days) (format_uint-IsDigit _),
        digits-IsPlain (format_uint e.maximum_age_in_days) (format_uint-IsDigit _),
        optional-IsPlain e.warn_age_in_days e.has_warn_age,
        optional-IsPlain e.inactive_age_in_days e.has_inactive_age,
        optional-IsPlain e.expire_at_ts_in_days e.has_expire,
        wf,
      )),
      refl,
    )

pub laws : EntryLaws value etc_shadow_colons
laws = record {
  IsWellFormed = IsWellFormed;
  several = omega arith;
  decode-IsWellFormed = decode-IsWellFormed;
  encode_decoded = encode_decoded;
  encode-IsPlain = encode-IsPlain;
  decode-encode = decode-encode_shadow;
}

-- ===== src/User/Shadow.antt =====
-- pkg/user/etc-shadow.go: the entries of the file shadow.
pub mod RoundTrip
pub mod Password
use bifroest.Prelude.{
  ℕ, ◌+◌, ◌%◌, Bool, true, false, not, ◌&&◌, ◌||◌, List, [], ◌∷◌, none, some, Bytes, codes,
  bytes_eq, length, leb, ◌==◌, if◌then◌else◌, ok, err, ◌>>=◌, ◌>>◌,
}
use bifroest.Prelude
use bifroest.User.Errors.{
  Result, empty_password, empty_last_changed_at, illegal_last_changed_at, illegal_minimum_age,
  empty_maximum_age, illegal_maximum_age, illegal_warn_age, illegal_inactive_age, illegal_expire_at,
  illegal_unused, index_out_of_range,
}
use bifroest.User.Names.{validate_user_name}
use bifroest.User.Columns.{u32_mod, parse_uint32_column, format_uint}
use bifroest.User.Value.{EtcColonEntryValue}

abbrev pub etc_shadow_colons : ℕ
etc_shadow_colons = 9

pub record EtcShadowEntry : Type 0 where
  pub name : Bytes
  pub password : Bytes
  pub last_changed_at_in_days : ℕ
  pub minimum_age_in_days : ℕ
  pub maximum_age_in_days : ℕ
  pub warn_age_in_days : ℕ
  pub has_warn_age : Bool
  pub inactive_age_in_days : ℕ
  pub has_inactive_age : Bool
  pub expire_at_ts_in_days : ℕ
  pub has_expire : Bool

unfoldable pub validate : EtcShadowEntry → Bool → Result (Unit {0})
validate e allow_bad = do
  validate_user_name e.name allow_bad
  if length e.password == 0 then err empty_password else ok tt

-- The checks at the end of `decode`, of the last column and of the entry that was read.
finish : Bytes → Bool → EtcShadowEntry → Result EtcShadowEntry
finish unused allow_bad e = do
  (if length unused == 0 then ok tt else err illegal_unused)
  validate e allow_bad
  ok e

unfoldable pub decode : List Bytes → Bool → Result EtcShadowEntry
unfolding finish
decode (name ∷ password ∷ changed ∷ minimum ∷ maximum ∷ warn ∷ inactive ∷ expire ∷ unused ∷ [])
      allow_bad =
    do
      c ← parse_uint32_column changed (some empty_last_changed_at) illegal_last_changed_at
      mi ← parse_uint32_column minimum none illegal_minimum_age
      ma ← parse_uint32_column maximum (some empty_maximum_age) illegal_maximum_age
      w ← parse_uint32_column warn none illegal_warn_age
      i ← parse_uint32_column inactive none illegal_inactive_age
      x ← parse_uint32_column expire none illegal_expire_at
      finish unused allow_bad (record {
        name = name;
        password = password;
        last_changed_at_in_days = c.0;
        minimum_age_in_days = mi.0;
        maximum_age_in_days = ma.0;
        warn_age_in_days = w.0;
        has_warn_age = w.1;
        inactive_age_in_days = i.0;
        has_inactive_age = i.1;
        expire_at_ts_in_days = x.0;
        has_expire = x.1;
      })
decode _ allow_bad = err index_out_of_range

-- A column that may be absent.
unfoldable pub optional : ℕ → Bool → Bytes
optional n has = if has then format_uint n else []

abbrev pub columns : EtcShadowEntry → List Bytes
columns e =
    e.name
    ∷ e.password
    ∷ format_uint e.last_changed_at_in_days
    ∷ format_uint e.minimum_age_in_days
    ∷ format_uint e.maximum_age_in_days
    ∷ optional e.warn_age_in_days e.has_warn_age
    ∷ optional e.inactive_age_in_days e.has_inactive_age
    ∷ optional e.expire_at_ts_in_days e.has_expire
    ∷ []
    ∷ []

unfoldable pub encode : EtcShadowEntry → Bool → Result (List Bytes)
encode e allow_bad = do validate e allow_bad; ok (columns e)

abbrev pub value : EtcColonEntryValue EtcShadowEntry
value = record { decode = decode; encode = encode }

-- The passwords that never match: none, `*`, `!` and `!!`.
unfoldable pub is_locked : Bytes → Bool
is_locked password =
    length password == 0
    || bytes_eq password (codes "*")
    || bytes_eq password (codes "!")
    || bytes_eq password (codes "!!")

-- The conditions behind the comparison of the password: neither inactive nor expired. The sum of
-- the ages is a uint32.
unfoldable pub is_current : EtcShadowEntry → ℕ → Bool
is_current e today =
    let inactive_at =
      (e.maximum_age_in_days + e.last_changed_at_in_days + e.inactive_age_in_days) % u32_mod in
    if e.has_inactive_age && leb inactive_at today
    then false
    else not (e.has_expire && leb e.expire_at_ts_in_days today)

-- `validatePassword`; `check pass hash` is `password.Validate`, which calls the crypt library, and
-- `today` the days since 1970.
unfoldable pub validate_password {ℓ} :
    {E : Type ℓ}
    → (Bytes → Bytes → Prelude.Result E Bool)
    → EtcShadowEntry
    → Bytes
    → ℕ
    → Prelude.Result E Bool
unfolding is_locked is_current
validate_password check e pass today =
    if is_locked e.password
    then ok false
    else do good ← check pass e.password; (if not good then ok false else ok (is_current e today))

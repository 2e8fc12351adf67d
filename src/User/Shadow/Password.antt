-- ===== src/User/Shadow/Password.antt =====
-- Which passwords `validatePassword` accepts.
use bifroest.Prelude.{
  ℕ, ◌+◌, ◌<◌, ◌≡◌, ◌↔◌, refl, inl, inr, Bool, true, false, Bytes, arith, ok, err, Result-cases,
  Bool-cases,
}
use bifroest.Prelude
use bifroest.User.Columns.{u32_mod}
use bifroest.User.Shadow.{EtcShadowEntry, is_locked, is_current, validate_password}

-- The day from which on an account with an inactive age is refused.
abbrev pub inactive_at : EtcShadowEntry → ℕ
inactive_at e = e.maximum_age_in_days + e.last_changed_at_in_days + e.inactive_age_in_days

-- The periods in which an account may be used, as they are meant.
pub record IsCurrent (e : EtcShadowEntry) (today : ℕ) : Type 0 where
  pub active : e.has_inactive_age ≡ true → today < inactive_at e
  pub unexpired : e.has_expire ≡ true → today < e.expire_at_ts_in_days

is_current_iff :
    (e : EtcShadowEntry) (today : ℕ)
    → inactive_at e < u32_mod
    → (is_current e today ≡ true) ↔ IsCurrent e today
unfolding is_current
is_current_iff e today fits = (
  λ h. record { active = ground arith; unexpired = ground arith },
  λ c. ground (arith, c.active, c.unexpired),
)

module _ {E : Type 0} (check : Bytes → Bytes → Prelude.Result E Bool) where
  -- A password is accepted exactly when the account is not locked, the crypt library accepts it, and
  -- the account is neither inactive nor expired today; if the sum of the three ages is a uint32.
  pub validate_password_iff :
      (e : EtcShadowEntry) (pass : Bytes) (today : ℕ)
      → inactive_at e < u32_mod
      → (validate_password check e pass today ≡ ok true)
        ↔ ((is_locked e.password ≡ false) × (check pass e.password ≡ ok true) × IsCurrent e today)
  unfolding validate_password
  validate_password_iff e pass today fits = (
    λ h. (ground arith, ground arith, (is_current_iff e today fits).0 (ground arith)),
    λ (locked, good, current). let c = (is_current_iff e today fits).1 current in ground arith,
  )

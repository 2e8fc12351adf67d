-- ===== src/Session/Predicates/Expiry.antt =====
-- When a session is expired.
use bifroest.Prelude.{
  ℕ, ◌+◌, ◌≤◌, ◌<◌, ◌≡◌, ◌↔◌, ◌⊎◌, Bool, true, false, not, Option, none, some, arith, ok, ltb,
}
use bifroest.Session.State.{disposed}
use bifroest.Session.Store.{Fs, Store, Codec, Conf}
use bifroest.Session.Fs.{valid_until, limit, last_accessed_at}
use bifroest.Session.Predicates.{is_expired_with_threshold}

-- A limit that is set is over, by a threshold.
abbrev pub IsOver : ℕ → ℕ → ℕ → Type 0
IsOver timeout since now = (0 < timeout) × (since + timeout ≤ now)

abbrev over : Option ℕ → ℕ → ℕ → Bool
over none threshold now = false
over (some vu) threshold now = not (ltb now (vu + threshold))

over_iff :
    (conf : Conf) (lat threshold now : ℕ)
    → (over (limit conf lat) threshold now ≡ true) ↔ (
        IsOver conf.idle_timeout (lat + threshold) now
        ⊎ IsOver conf.max_timeout (lat + threshold) now)
unfolding limit
over_iff conf lat threshold now = (λ h. ground arith, λ h. ground arith)

module _ (c : Codec) (conf : Conf) (now threshold : ℕ) (r : Store) (sess : Fs) where
  -- For a session whose time of last access is read: it is expired, by a threshold, exactly when it is
  -- disposed, or the idle timeout or the maximum is set and has passed since that time, by the
  -- threshold.
  pub is_expired_with_threshold_iff :
      (lat : ℕ)
      → last_accessed_at c r sess ≡ ok lat
      → (is_expired_with_threshold c conf now threshold r sess ≡ ok true) ↔ (
          (sess.info.state ≡ disposed)
          ⊎ IsOver conf.idle_timeout (lat + threshold) now
          ⊎ IsOver conf.max_timeout (lat + threshold) now)
  unfolding is_expired_with_threshold valid_until
  is_expired_with_threshold_iff lat read =
      let (to, from) = over_iff conf lat threshold now in
      (λ h. ground (arith, read, to), λ h. ground (arith, read, from))

-- ===== src/User/Shared.antt =====
-- `SharedRepositoryProvider` of pkg/user/repository.go: one repository behind many handles, opened
-- for the first and closed with the last.
pub mod Counts
use bifroest.Prelude.{
  ℕ, zero, suc, ◌+◌, ◌%◌, ◌^◌, Bool, true, false, List, [], ◌∷◌, ◌++◌, Option, none, some, leb,
  ◌==◌, if◌then◌else◌, ok, err,
}
use bifroest.Prelude

pub data ProviderError : Type 0 where
  -- what `Init` or `Close` of the repository answer
  of_repository : ℕ → ProviderError
  -- panic("less than 0 usages!?")
  less_than_zero : ProviderError

abbrev pub Result : Type 0 → Type 0
Result = Prelude.Result ProviderError

-- An int16 is a number below 2 ^ 16, of which the upper half are the negative ones.
abbrev pub i16_mod : ℕ
i16_mod = 65536

-- The provider and its handles: whether each is closed, in the order of their creation. Also how
-- often the repository was opened, and how often it was told to close.
pub record Provider : Type 0 where
  pub usages : ℕ
  pub closed : List Bool
  pub opened : ℕ
  pub closings : ℕ

abbrev pub no_provider : Provider
no_provider = record { usages = 0; closed = []; opened = 0; closings = 0 }

abbrev pub added : Provider → ℕ → Provider
added p opened = record p {
  usages = (p.usages + 1) % i16_mod;
  closed = p.closed ++ false ∷ [];
  opened = opened;
}

-- `Create`, where `Init` would give this answer.
unfoldable pub create : Result (Unit {0}) → Provider → Provider × Result (Unit {0})
create init p =
    if p.usages == 0
    then elim init [ err e ↦ (p, err e) | ok u ↦ (added p (p.opened + 1), ok tt) ]
    else (added p p.opened, ok tt)

abbrev pub is_closed : List Bool → ℕ → Option Bool
is_closed [] i = none
is_closed (b ∷ bs) zero = some b
is_closed (b ∷ bs) (suc i) = is_closed bs i

abbrev pub mark_closed : List Bool → ℕ → List Bool
mark_closed [] i = []
mark_closed (b ∷ bs) zero = true ∷ bs
mark_closed (b ∷ bs) (suc i) = b ∷ mark_closed bs i

-- `Close` of the handle `i`, where `Close` of the repository would give this answer. The handle is
-- marked as closed whatever happens after the test.
unfoldable pub close : Result (Unit {0}) → ℕ → Provider → Provider × Result (Unit {0})
close answer i p = elim (is_closed p.closed i) [
  | none ↦ (p, ok tt)
  | some true ↦ (p, ok tt)
  | some false ↦
      let usages = (p.usages + 65535) % i16_mod in
      let p' = record p { usages = usages; closed = mark_closed p.closed i } in
      if leb 32768 usages
      then (p', err less_than_zero)
      else if usages == 0
      then (record p' { closings = p.closings + 1 }, answer)
      else (p', ok tt)
]

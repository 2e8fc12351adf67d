-- ===== src/User/Shared/Counts.antt =====
-- The counter of the handles, along any sequence of calls.
use bifroest.Prelude.{
  ℕ, zero, suc, ◌+◌, ◌<◌, ◌≡◌, ◌≢◌, refl, Bool, true, false, List, [], ◌∷◌, ◌++◌, some, arith,
  Option-cases, Bool-cases, inl, inr, ok, err, if◌then◌else◌, ◌==◌,
}
use bifroest.User.Shared.{
  Result, Provider, no_provider, create, added, is_closed, mark_closed, close, less_than_zero,
}

-- How many handles are not closed.
unfoldable pub open_handles : List Bool → ℕ
open_handles [] = 0
open_handles (b ∷ bs) = if b then open_handles bs else suc (open_handles bs)

open_handles-append : (bs : List Bool) → open_handles (bs ++ false ∷ []) ≡ open_handles bs + 1
unfolding open_handles
open_handles-append [] = omega arith
open_handles-append (b ∷ bs) = ground (arith, open_handles-append bs)

open_handles-mark_closed :
    (bs : List Bool) (i : ℕ)
    → is_closed bs i ≡ some false
    → open_handles (mark_closed bs i) + 1 ≡ open_handles bs
unfolding open_handles
open_handles-mark_closed [] i h = cc
open_handles-mark_closed (b ∷ bs) zero h = ground (arith, h)
open_handles-mark_closed (b ∷ bs) (suc i) h = ground (arith, open_handles-mark_closed bs i h)

-- The counter is the number of open handles, and the repository is open exactly while there are any.
pub record IsCounted (p : Provider) : Type 0 where
  pub counted : p.usages ≡ open_handles p.closed
  pub bounded : p.usages < 32768
  pub balanced : p.opened ≡ p.closings + (if p.usages == 0 then 0 else 1)

-- What calls can lead to, as long as no more than 32767 handles are open at a time.
pub data Reachable : Provider → Type 0 where
  start : Reachable no_provider
  created :
      (init : Result (Unit {0})) {p : Provider}
      → open_handles p.closed < 32767
      → Reachable p
      → Reachable (create init p).0
  closed :
      (answer : Result (Unit {0})) (i : ℕ) {p : Provider}
      → Reachable p
      → Reachable (close answer i p).0

added-IsCounted :
    (p : Provider) (opened : ℕ)
    → IsCounted p
    → open_handles p.closed < 32767
    → opened ≡ p.closings + 1
    → IsCounted (added p opened)
added-IsCounted p opened c room is_opened = record {
  counted = omega (arith, c.counted, open_handles-append p.closed);
  bounded = omega (arith, c.counted);
  balanced = ground (arith, c.counted, is_opened);
}

create-IsCounted :
    (init : Result (Unit {0})) (p : Provider)
    → IsCounted p
    → open_handles p.closed < 32767
    → IsCounted (create init p).0
unfolding create
create-IsCounted (ok u) p c room = elim (Bool-cases (p.usages == 0)) [
  | inl idle ↦ rw idle (added-IsCounted p (p.opened + 1) c room (ground (arith, c.balanced, idle)))
  | inr busy ↦ rw busy (added-IsCounted p p.opened c room (ground (arith, c.balanced, busy)))
]
create-IsCounted (err e) p c room = elim (Bool-cases (p.usages == 0)) [
  | inl idle ↦ rw idle c
  | inr busy ↦ rw busy (added-IsCounted p p.opened c room (ground (arith, c.balanced, busy)))
]

-- What the closing of one handle keeps, and that it does not panic.
close-IsCounted :
    (answer : Result (Unit {0})) (i : ℕ) (p : Provider)
    → IsCounted p
    → IsCounted (close answer i p).0
      × (answer ≢ err less_than_zero → (close answer i p).1 ≢ err less_than_zero)
unfolding close
close-IsCounted answer i p c = elim (Option-cases (is_closed p.closed i)) [
  | inl missing ↦ (rw (missing, close) c, ground (arith, missing))
  | inr (true, is_true) ↦ (rw (is_true, close) c, ground (arith, is_true))
  | inr (false, is_false) ↦
      let fewer = open_handles-mark_closed p.closed i is_false in
      (
        record {
          counted = ground (arith, is_false, fewer, c.counted, c.bounded);
          bounded = ground (arith, is_false, fewer, c.counted, c.bounded);
          balanced = ground (arith, is_false, fewer, c.counted, c.bounded, c.balanced);
        },
        ground (arith, is_false, fewer, c.counted, c.bounded),
      )
]

Reachable-IsCounted : (p : Provider) → Reachable p → IsCounted p
unfolding open_handles
Reachable-IsCounted p start = record { counted = refl; bounded = omega arith; balanced = refl }
Reachable-IsCounted p (created init {p = q} room before) =
    create-IsCounted init q (Reachable-IsCounted q before) room
Reachable-IsCounted p (closed answer i {p = q} before) =
    (close-IsCounted answer i q (Reachable-IsCounted q before)).0

-- After any sequence of calls, in which no more than 32767 handles are open at a time, the counter
-- is the number of open handles, the repository was opened as often as it was closed, and once more
-- while handles are open, and closing a handle, an already closed one too, does not panic.
pub shared-IsCounted :
    (p : Provider) (answer : Result (Unit {0})) (i : ℕ)
    → Reachable p
    → answer ≢ err less_than_zero
    → IsCounted p × ((close answer i p).1 ≢ err less_than_zero)
shared-IsCounted p answer i before no_panic =
    let c = Reachable-IsCounted p before in (c, (close-IsCounted answer i p c).1 no_panic)

-- ===== src/Session/Interceptors/Counted.antt =====
-- The numbers of connections.
use bifroest.Prelude.{
  ℕ, zero, suc, ◌+◌, ◌≤◌, ◌<◌, ◌≡◌, ◌⊎◌, Bool, true, ltb, refl, sym, subst, List, [], ◌∷◌, Option,
  none, some, Bytes, bytes_eq_iff, ◌==◌, arith, if◌then◌else◌, Option-cases, inl, inr,
}
use bifroest.Session.Interceptors.{
  World, Registered, Event, create, created, close, closed, initial, registered_for, take_out,
  is_session, unregister, start_create, finish_create, start_close, finish_close, step, Reachable,
  at_first, after,
}

unfoldable pub count : ℕ → List ℕ → ℕ
count j [] = 0
count j (k ∷ ks) = (if k == j then 1 else 0) + count j ks

-- The goroutine that is creating an interceptor of a stack counts as well.
abbrev pub held : ℕ → Option (ℕ × ℕ) → ℕ
held j none = 0
held j (some (k, n)) = if k == j then 1 else 0

count-take_out :
    (position k j : ℕ) (ks others : List ℕ)
    → take_out position ks ≡ some (k, others)
    → count j ks ≡ (if k == j then 1 else 0) + count j others
unfolding take_out count
count-take_out zero k j [] others h = absurd (ground arith)
count-take_out (suc position) k j [] others h = absurd (ground arith)
count-take_out zero k j (x ∷ xs) others h = ground arith
count-take_out (suc position) k j (x ∷ xs) others h = elim (Option-cases (take_out position xs)) [
  | inl nothing ↦ absurd (ground (arith, nothing))
  | inr ((y, ys), is_y) ↦ ground (arith, is_y, count-take_out position y j xs ys is_y)
]

registered_for-unregister :
    (flow : Bytes) (id : ℕ) (f : Bytes) (i : ℕ) (m : Registered)
    → registered_for f i (unregister flow id m)
      ≡ (if is_session flow id (f, i) then none else registered_for f i m)
unfolding registered_for unregister
registered_for-unregister flow id f i [] = ground arith
registered_for-unregister flow id f i (((g, j), k) ∷ m) = ground (
  arith,
  bytes_eq_iff flow f,
  bytes_eq_iff flow g,
  bytes_eq_iff f g,
  registered_for-unregister flow id f i m,
)

pub record IsCounted (max : ℕ) (w : World) : Type 0 where
  pub counted : (j : ℕ) → w.active j ≡ count j w.open_ones + held j w.creating
  pub below : (k n : ℕ) → w.creating ≡ some (k, n) → w.active k ≤ n
  pub limited : (j : ℕ) → 0 < max → count j w.open_ones ≤ max
  pub fresh : (j : ℕ) → w.next ≤ j → w.active j ≡ 0
  pub made : (f : Bytes) (i k : ℕ) → registered_for f i w.registered ≡ some k → k < w.next

initial-IsCounted : (max : ℕ) → IsCounted max initial
unfolding count registered_for
initial-IsCounted max = record {
  counted = λ j. omega arith;
  below = λ k n h. absurd (ground arith);
  limited = λ j h. omega arith;
  fresh = λ j h. refl;
  made = λ f i k h. absurd (ground arith);
}

module _ (max : ℕ) (w w' : World) (inv : IsCounted max w) where
  start_create-IsCounted :
      (flow : Bytes) (id : ℕ) → start_create flow id w ≡ some w' → IsCounted max w'
  unfolding start_create registered_for
  start_create-IsCounted flow id h = elim (Option-cases (registered_for flow id w.registered)) [
    | inl nothing ↦ record {
      counted = λ j. ground (arith, nothing, inv.counted j, inv.fresh j);
      below = λ j m at. ground (arith, nothing, at);
      limited = λ j some_max. ground (arith, nothing, inv.limited j some_max);
      fresh = λ j later. ground (arith, nothing, inv.fresh j);
      made = λ f i j found. ground (arith, nothing, found, inv.made f i j);
    }
    | inr (k, is_k) ↦
        let k_made = inv.made flow id k is_k in
        record {
          counted = λ j. ground (arith, is_k, inv.counted j);
          below = λ j m at. ground (arith, is_k, at);
          limited = λ j some_max. ground (arith, is_k, inv.limited j some_max);
          fresh = λ j later. ground (arith, is_k, k_made, inv.fresh j);
          made = λ f i j found. ground (arith, is_k, found, inv.made f i j);
        }
  ]

  finish_create-IsCounted : finish_create max w ≡ some w' → IsCounted max w'
  unfolding finish_create count
  finish_create-IsCounted h = elim (Option-cases w.creating) [
    | inl nothing ↦ absurd (ground (arith, nothing))
    | inr ((k, n), is_k) ↦ record {
      counted = λ j. ground (arith, is_k, inv.counted j);
      below = λ j m at. ground (arith, is_k, at);
      limited = λ j some_max.
          ground (arith, is_k, inv.limited j some_max, inv.counted j, inv.below k n is_k);
      fresh = λ j later. ground (arith, is_k, inv.fresh j);
      made = λ f i j found. ground (arith, is_k, found, inv.made f i j);
    }
  ]

  start_close-IsCounted : (position : ℕ) → start_close position w ≡ some w' → IsCounted max w'
  unfolding start_close
  start_close-IsCounted position h = elim (Option-cases (take_out position w.open_ones)) [
    | inl nothing ↦ absurd (ground (arith, nothing))
    | inr ((k, others), is_k) ↦
        let taken = λ (j : ℕ). count-take_out position k j w.open_ones others is_k in
        record {
          counted = λ j. ground (arith, is_k, inv.counted j, taken j);
          below = λ j m at. ground (arith, is_k, at, inv.below j m);
          limited = λ j some_max. ground (arith, is_k, inv.limited j some_max, taken j);
          fresh = λ j later. ground (arith, is_k, inv.fresh j);
          made = λ f i j found. ground (arith, is_k, found, inv.made f i j);
        }
  ]

  finish_close-IsCounted : (position : ℕ) → finish_close position w ≡ some w' → IsCounted max w'
  unfolding finish_close
  finish_close-IsCounted position h = elim (Option-cases w.creating) [
    | inr (at, is_at) ↦ absurd (ground (arith, is_at))
    | inl free ↦ record {
      counted = λ j. ground (arith, free, inv.counted j);
      below = λ j m at. ground (arith, free, at);
      limited = λ j some_max. ground (arith, free, inv.limited j some_max);
      fresh = λ j later. ground (arith, free, inv.fresh j);
      made = λ f i j found. elim (Option-cases (take_out position w.closing)) [
        | inl nothing ↦ absurd (ground (arith, free, nothing))
        | inr ((k, others), is_k) ↦
            let (flow, id) = w.session k in
            ground (
              arith,
              free,
              is_k,
              found,
              inv.made f i j,
              registered_for-unregister flow id f i w.registered,
            )
      ];
    }
  ]

  step-IsCounted : (e : Event) → step max e w ≡ some w' → IsCounted max w'
  unfolding step
  step-IsCounted (create flow id) h = start_create-IsCounted flow id (ground arith)
  step-IsCounted created h = finish_create-IsCounted (ground arith)
  step-IsCounted (close position) h = start_close-IsCounted position (ground arith)
  step-IsCounted (closed position) h = finish_close-IsCounted position (ground arith)

Reachable-IsCounted : (max : ℕ) (w : World) → Reachable max w → IsCounted max w
Reachable-IsCounted max _ (at_first w start) =
    subst (IsCounted max) (sym start) (initial-IsCounted max)
Reachable-IsCounted max _ (after e w w' before stepped) =
    step-IsCounted max w w' (Reachable-IsCounted max w before) e stepped

-- In whatever order the goroutines run: the number that a stack keeps is that of its open
-- interceptors, and one more while one is created; with a limit, no stack has more open interceptors
-- than it allows; and the interceptor at any position of the open ones finds the number of its stack
-- above 0, so that its closing does not panic before it takes the mutex.
pub Reachable-active :
    (max : ℕ) (w : World) (j position : ℕ)
    → Reachable max w
    → (w.active j ≡ count j w.open_ones + held j w.creating)
      × ((max ≡ 0) ⊎ (count j w.open_ones ≤ max))
      × ((elim (take_out position w.open_ones) as (λ _. Bool) [
        | none ↦ true
        | some (k, others) ↦ ltb 0 (w.active k)
      ])
          ≡ true)
Reachable-active max w j position reached =
    let inv = Reachable-IsCounted max w reached in
    (
      inv.counted j,
      ground (arith, inv.limited j),
      elim (Option-cases (take_out position w.open_ones)) [
        | inl nothing ↦ ground (arith, nothing)
        | inr ((k, others), is_k) ↦
            ground (arith, is_k, inv.counted k, count-take_out position k k w.open_ones others is_k)
      ],
    )

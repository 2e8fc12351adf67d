-- ===== src/Prelude/Maps.antt =====
-- Directories and maps: association lists under names.
use mathlib.Core.Path.{◌≡◌, refl}
use mathlib.Core.Bool.{Bool}
use mathlib.Core.Option.{Option, none, some}
use mathlib.Core.List.{List, [], ◌∷◌}
use native.Mathlib.Omega.{arith}
use bifroest.Prelude.Tests.{if◌then◌else◌}
use bifroest.Prelude.Lists.{Bytes, bytes_eq, bytes_eq_iff}

abbrev pub Named : Type 0 → Type 0
Named V = List (Bytes × V)

module _ {V : Type 0} where
  unfoldable pub find : Bytes → Named V → Option V
  find k [] = none
  find k ((j, v) ∷ m) = if bytes_eq j k then some v else find k m

  unfoldable pub put : Bytes → V → Named V → Named V
  put k v [] = (k, v) ∷ []
  put k v ((j, w) ∷ m) = if bytes_eq j k then (k, v) ∷ m else (j, w) ∷ put k v m

  unfoldable pub drop : Bytes → Named V → Named V
  drop k [] = []
  drop k ((j, w) ∷ m) = let rest = drop k m in if bytes_eq j k then rest else (j, w) ∷ rest

  -- A filter by name.
  unfoldable pub retain : (Bytes → Bool) → Named V → Named V
  retain keep [] = []
  retain keep ((j, w) ∷ m) = let rest = retain keep m in if keep j then (j, w) ∷ rest else rest

  pub find-put :
      (k j : Bytes) (v : V) (m : Named V)
      → find j (put k v m) ≡ (if bytes_eq k j then some v else find j m)
  unfolding find put
  find-put k j v [] = refl
  find-put k j v ((i, w) ∷ m) =
      ground (arith, bytes_eq_iff k j, bytes_eq_iff i k, bytes_eq_iff i j, find-put k j v m)

  pub find-drop :
      (k j : Bytes) (m : Named V) → find j (drop k m) ≡ (if bytes_eq k j then none else find j m)
  unfolding find drop
  find-drop k j [] = ground arith
  find-drop k j ((i, w) ∷ m) =
      ground (arith, bytes_eq_iff k j, bytes_eq_iff i k, bytes_eq_iff i j, find-drop k j m)

  pub find-retain :
      (keep : Bytes → Bool) (k : Bytes) (m : Named V)
      → find k (retain keep m) ≡ (if keep k then find k m else none)
  unfolding find retain
  find-retain keep k [] = ground arith
  find-retain keep k ((i, w) ∷ m) = ground (arith, bytes_eq_iff i k, find-retain keep k m)

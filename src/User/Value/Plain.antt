-- ===== src/User/Value/Plain.antt =====
-- Which columns are plain.
use bifroest.Prelude.{Bytes, All, All-map, arith}
use bifroest.User.Names.Safe.{IsSafe}
use bifroest.User.Columns.Decimal.{IsDigit}
use bifroest.User.Value.{IsPlain}

pub safe-IsPlain : (s : Bytes) → All IsSafe s → All IsPlain s
safe-IsPlain s h =
    All-map IsSafe IsPlain
      (λ c k. record { no_colon = k.no_colon; no_newline = omega arith; no_return = omega arith }) s
      h

pub digits-IsPlain : (s : Bytes) → All IsDigit s → All IsPlain s
digits-IsPlain s h = All-map IsDigit IsPlain (λ c k. omega arith) s h

-- ===== src/User/Value.antt =====
-- The type constraint `etcColonEntryValue` of pkg/user/etc-colon-entry.go: what an entry of one of
-- the files offers, and the laws that the code on lines and files relies on.
pub mod Plain
use bifroest.Prelude.{ℕ, ◌<◌, ◌≡◌, ◌≢◌, Bool, List, Bytes, length, All, ok}
use bifroest.User.Errors.{Result}

-- `decode` is a method on a new value in Go, and yields that value here.
pub record EtcColonEntryValue (T : Type 0) : Type 0 where
  pub decode : List Bytes → Bool → Result T
  pub encode : T → Bool → Result (List Bytes)

-- A byte that may stand in a column of a line: it ends neither the column nor the line.
pub record IsPlain (c : ℕ) : Type 0 where
  pub no_colon : c ≢ b':'
  pub no_newline : c ≢ b'\n'
  pub no_return : c ≢ b'\r'

-- What lines and files need of such a type of entries, of which each has `colons` columns.
pub record EntryLaws {T : Type 0} (v : EtcColonEntryValue T) (colons : ℕ) : Type 1 where
  pub IsWellFormed : T → Type 0
  pub several : 1 < colons
  -- reading plain columns gives well-formed entries,
  pub decode-IsWellFormed :
      (cols : List Bytes) (allow_bad : Bool) (e : T)
      → All (All IsPlain) cols
      → v.decode cols allow_bad ≡ ok e
      → IsWellFormed e
  -- which can be written again,
  pub encode_decoded :
      (cols : List Bytes) (allow_bad : Bool) (e : T)
      → v.decode cols allow_bad ≡ ok e
      → (out : List Bytes) × (v.encode e allow_bad ≡ ok out)
  -- to plain columns, as many as the file has,
  pub encode-IsPlain :
      (e : T) (allow_bad : Bool) (cols : List Bytes)
      → IsWellFormed e
      → v.encode e allow_bad ≡ ok cols
      → All (All IsPlain) cols × (length cols ≡ colons)
  -- that are read as the same entry.
  pub decode-encode :
      (e : T) (allow_bad : Bool) (cols : List Bytes)
      → IsWellFormed e
      → v.encode e allow_bad ≡ ok cols
      → v.decode cols allow_bad ≡ ok e

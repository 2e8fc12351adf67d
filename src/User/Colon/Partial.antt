-- ===== src/User/Colon/Partial.antt =====
-- What is left of a file when an entry cannot be written.
use bifroest.Prelude.{
  ℕ, suc, ◌+◌, ◌≡◌, ◌∙◌, inl, inr, Bool, List, [], ◌∷◌, ◌++◌, Bytes, length, arith, ok, err,
  Result-cases,
}
use native.Mathlib.Nat.{zero-add}
use bifroest.User.Errors.{EtcError, cannot_write}
use bifroest.User.Value.{EtcColonEntryValue}
use bifroest.User.Colon.{EtcColonEntry, good_entry, encode_line, encode_lines, encode_file}

module _ {T : Type 0} (v : EtcColonEntryValue T) (abn : Bool) where
  encode_lines-stop :
      (k : ℕ) (before : List (EtcColonEntry T)) (x : T) (after : List (EtcColonEntry T))
      (to out : Bytes) (e : EtcError)
      → encode_lines v k before abn to ≡ (out, ok tt)
      → v.encode x abn ≡ err e
      → encode_lines v k (before ++ good_entry x ∷ after) abn to
        ≡ (out, err (cannot_write (k + length before) e))
  unfolding encode_lines
  encode_lines-stop k [] x after to out e h bad = unfold encode_line in ground arith
  encode_lines-stop k (b ∷ before) x after to out e h bad =
      elim (Result-cases (encode_line v b abn to).1) [
        | inl (u, good) ↦
            let rest = encode_lines-stop (k + 1) before x after (encode_line v b abn to).0 out e in
            let same : k + 1 + length before ≡ k + suc (length before) = omega arith in
            ground (arith, good, same, rest (ground arith) bad)
        | inr (y, failed) ↦ absurd (ground arith)
      ]

  -- An entry that its own validation refuses leaves the file with the entries before it alone: the
  -- file was emptied before anything was validated, so what stands behind that entry is lost.
  pub encode_file-stops :
      (before after : List (EtcColonEntry T)) (x : T) (held out : Bytes) (e : EtcError)
      → encode_file v before abn held ≡ (out, ok tt)
      → v.encode x abn ≡ err e
      → encode_file v (before ++ good_entry x ∷ after) abn held
        ≡ (out, err (cannot_write (length before) e))
  unfolding encode_file
  encode_file-stops before after x held out e h bad =
      encode_lines-stop 0 before x after [] out e h bad ∙ rw zero-add

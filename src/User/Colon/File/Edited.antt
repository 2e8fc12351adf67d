-- ===== src/User/Colon/File/Edited.antt =====
-- A file that is read, changed entry by entry, and written, as the repository does.
use bifroest.Prelude.{
  ℕ, ◌≡◌, ◌+◌, refl, ap, sym, subst, ◌⊎◌, inl, inr, Bool, false, List, [], ◌∷◌, some, Bytes, All,
  Lacks, arith, ok, none, if◌then◌else◌, ◌∙◌,
}
use bifroest.User.Columns.{join}
use bifroest.User.Value.{EtcColonEntryValue, EntryLaws}
use bifroest.User.Colon.{
  EtcColonEntry, zero_entry, good_entry, is_zero, scan_lines, stays_in_place, decode_lines,
  decode_file, encode_file,
}
use bifroest.User.Colon.Lines.{InLine, unlines, scan_lines-unlines, scan_lines-InLine}
use bifroest.User.Colon.File.{
  drop_zero, Writes, Written, Written-nil, Written-zero, Written-cons, decode_lines-nil,
  decode_lines-eq-ok, read-Writes, good-Writes,
}

module _ {T : Type 0} (v : EtcColonEntryValue T) (colons : ℕ) (abn abe : Bool)
    (laws : EntryLaws v colons) where
  -- A list with some of its entries taken out, and new ones, which can be written, put in.
  pub data Edited : List (EtcColonEntry T) → List (EtcColonEntry T) → Type 0 where
    done : Edited [] []
    keep :
        (e : EtcColonEntry T) {old new : List (EtcColonEntry T)}
        → Edited old new
        → Edited (e ∷ old) (e ∷ new)
    drop :
        (e : EtcColonEntry T) {old new : List (EtcColonEntry T)}
        → Edited old new
        → Edited (e ∷ old) new
    add :
        (x : T) (cols : List Bytes)
        → laws.IsWellFormed x
        → v.encode x abn ≡ ok cols
        → {old new : List (EtcColonEntry T)} → Edited old new
        → Edited old (good_entry x ∷ new)

  -- An entry of no line, or one that is written as a line that is read as that entry.
  abbrev Stands : EtcColonEntry T → Type 0
  Stands e = (e ≡ zero_entry) ⊎ ((is_zero e ≡ false) × ((l : Bytes) × Writes v colons abn abe e l))

  read-Stands :
      (k : ℕ) (ls : List Bytes) (es : List (EtcColonEntry T))
      → All (All InLine) ls
      → decode_lines v k ls colons abn abe ≡ ok es
      → All Stands es
  read-Stands k [] es in_lines h = subst (All Stands) (decode_lines-nil v colons abn abe k es h) tt
  read-Stands k (l ∷ ls) es (hl, hls) h =
      let (e, r, shape, he, hr) = decode_lines-eq-ok v colons abn abe k l ls es h in
      subst (All Stands) (sym shape)
        (read-Writes v colons abn abe laws l e hl he, read-Stands (k + 1) ls r hls hr)

  Stands-cons :
      (e : EtcColonEntry T) {es : List (EtcColonEntry T)}
      → Stands e
      → Written v colons abn abe es
      → Written v colons abn abe (e ∷ es)
  Stands-cons e {es} (inl zero) w =
      subst (λ z. Written v colons abn abe (z ∷ es)) (sym zero) (Written-zero v colons abn abe w)
  Stands-cons e (inr (some_entry, (l, h))) w = Written-cons v colons abn abe e l some_entry h w

  edited-Written :
      (old new : List (EtcColonEntry T))
      → Edited old new
      → All Stands old
      → Written v colons abn abe new
  edited-Written old new done _ = Written-nil v colons abn abe
  edited-Written old new (keep e rest) (h, hs) = Stands-cons e h (edited-Written _ _ rest hs)
  edited-Written old new (drop e rest) (h, hs) = edited-Written _ _ rest hs
  edited-Written old new (add x cols wf h rest) hs =
      Stands-cons (good_entry x)
        (inr (refl, (join b':' cols, good-Writes v colons abn abe laws x cols wf h)))
        (edited-Written _ _ rest hs)

  -- A file without returns is read; some of its entries are taken out and valid new ones put in
  -- anywhere. Then it is written in full, and what is written is read, where the scanner keeps its
  -- buffer, as just these entries, but for those of empty lines.
  pub edited-encode_file :
      (text held : Bytes) (es new : List (EtcColonEntry T))
      → Lacks b'\r' text
      → decode_file v text colons abn abe ≡ some (ok es)
      → Edited es new
      → (out : Bytes) × (encode_file v new abn held ≡ (out, ok tt))
        × (decode_file v out colons abn abe
            ≡ (if stays_in_place out then some (ok (drop_zero new)) else none))
  unfolding decode_file encode_file
  edited-encode_file text held es new no_return h edit =
      let w =
        edited-Written es new edit
          (read-Stands 0 (scan_lines text) es (scan_lines-InLine text no_return) (ground arith)) in
      (
        unlines w.ls,
        w.encoded 0 [],
        ap (λ r. if stays_in_place (unlines w.ls) then some r else none)
            (ap (λ l. decode_lines v 0 l colons abn abe) (scan_lines-unlines w.ls w.in_lines)
              ∙ w.decoded 0),
      )

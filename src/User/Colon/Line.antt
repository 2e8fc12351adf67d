-- ===== src/User/Colon/Line.antt =====
-- One line.
use bifroest.Prelude.{
  ℕ, suc, ◌≡◌, ◌≢◌, refl, ap, inl, inr, Bool, true, false, List, [], ◌∷◌, ◌++◌, none, Bytes, length,
  ◌==◌, ◌&&◌, is_empty, All, All-map, Lacks, arith, ok, Result-cases, Bool-cases, zero,
  if◌then◌else◌,
}
use bifroest.User.Columns.{cons_first, split_n, join}
use bifroest.User.Columns.Parts.{split_n-join, length-split_n}
use bifroest.User.Value.{EtcColonEntryValue, EntryLaws, IsPlain}
use bifroest.User.Colon.{
  EtcColonEntry, zero_entry, bad_entry, good_entry, first, decode_line, encode_line,
}

module _ {T : Type 0} (v : EtcColonEntryValue T) (colons : ℕ) (laws : EntryLaws v colons) where
  open laws use {IsWellFormed, several}

  plain-Lacks : (cols : List Bytes) → All (All IsPlain) cols → All (Lacks b':') cols
  plain-Lacks cols h =
      All-map (All IsPlain) (Lacks b':')
        (λ s k. All-map IsPlain (λ c. c ≢ b':') (λ c p. p.no_colon) s k) cols h

  -- The line of an entry that is written is read as that entry.
  pub decode-encode_line :
      (e : T) (allow_bad_name allow_bad_entries : Bool) (cols : List Bytes)
      → IsWellFormed e
      → v.encode e allow_bad_name ≡ ok cols
      → decode_line v (join b':' cols) colons allow_bad_name allow_bad_entries ≡ ok (good_entry e)
  unfolding decode_line
  decode-encode_line e abn abe cols wf h =
      let (plain, many) = laws.encode-IsPlain e abn cols wf h in
      ground (
        arith,
        many,
        several,
        laws.decode-encode e abn cols wf h,
        split_n-join b':' colons cols (λ eq. omega (arith, ap length eq, many, several))
            (omega (arith, many)) (plain-Lacks cols plain),
      )

first-cons_first : (c : ℕ) (ps : List Bytes) → is_empty (first (cons_first c ps)) ≡ false
unfolding cons_first
first-cons_first c [] = refl
first-cons_first c (p ∷ ps) = refl

split_n-empty :
    (n : ℕ) (s : Bytes)
    → length (split_n b':' n s) ≡ 1
    → is_empty (first (split_n b':' n s)) ≡ true
    → s ≡ []
unfolding split_n cons_first
split_n-empty n [] l h = refl
split_n-empty zero (c ∷ s) l h = cc
split_n-empty (suc n) (c ∷ s) l h =
    ground (arith, length-split_n b':' n s, first-cons_first c (split_n b':' (suc n) s))

module _ {T : Type 0} (v : EtcColonEntryValue T) where
  -- Where bad lines are tolerated, reading a line never fails.
  pub decode_line_total :
      (raw_line : Bytes) (colons : ℕ) (allow_bad_name : Bool)
      → (e : EtcColonEntry T) × (decode_line v raw_line colons allow_bad_name true ≡ ok e)
  unfolding decode_line
  decode_line_total raw_line colons abn =
      elim (Result-cases (decode_line v raw_line colons abn true)) [
        | inl (e, h) ↦ (e, h)
        | inr (x, h) ↦ absurd (ground arith)
      ]

  -- A line that holds no entry is written back byte for byte, or not at all if it is empty.
  pub encode_line-no_entry :
      (raw_line : Bytes) (colons : ℕ) (allow_bad_name allow_bad_entries : Bool)
      (e : EtcColonEntry T) (to : Bytes)
      → decode_line v raw_line colons allow_bad_name allow_bad_entries ≡ ok e
      → e.entry ≡ none
      → encode_line v e allow_bad_name to
        ≡ (if is_empty raw_line then to else to ++ (raw_line ++ b'\n' ∷ []), ok tt)
  unfolding decode_line encode_line
  encode_line-no_entry raw_line colons abn abe e to h bad =
      ground (arith, split_n-empty colons raw_line)

-- What a line can be read as: an empty one, a bad one, or an entry.
pub data Reading {T : Type 0} (v : EtcColonEntryValue T) (raw_line : Bytes) (colons : ℕ)
    (abn : Bool) (e : EtcColonEntry T) : Type 0 where
  empty : raw_line ≡ [] → e ≡ zero_entry → Reading v raw_line colons abn e
  bad : e ≡ bad_entry raw_line → Reading v raw_line colons abn e
  good :
      (x : T)
      → length (split_n b':' colons raw_line) ≡ colons
      → v.decode (split_n b':' colons raw_line) abn ≡ ok x
      → e ≡ good_entry x
      → Reading v raw_line colons abn e

pub decode_line-Reading :
    {T : Type 0} (v : EtcColonEntryValue T) (raw_line : Bytes) (colons : ℕ) (abn abe : Bool)
    (e : EtcColonEntry T)
    → decode_line v raw_line colons abn abe ≡ ok e
    → Reading v raw_line colons abn e
unfolding decode_line
decode_line-Reading v raw_line colons abn abe e h =
    let line = split_n b':' colons raw_line in
    elim (Bool-cases (length line == 1 && is_empty (first line))) [
      | inl none_there ↦
          empty (split_n-empty colons raw_line (ground arith) (ground arith)) (ground arith)
      | inr something ↦ elim (Result-cases (v.decode line abn)) [
        | inl (x, read) ↦ elim (Bool-cases (length line == colons)) [
          | inl whole ↦ good x (ground arith) read (ground arith)
          | inr short ↦ bad (ground arith)
        ]
        | inr (x, failed) ↦ bad (ground arith)
      ]
    ]

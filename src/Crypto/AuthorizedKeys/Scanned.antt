-- ===== src/Crypto/AuthorizedKeys/Scanned.antt =====
-- The loop over the options of a line, on options that were written.
use bifroest.Prelude.{
  ℕ, ◌≡◌, ◌≢◌, refl, ap, sym, ◌∙◌, Bool, true, false, List, [], ◌∷◌, ◌++◌, Option, Bytes, is_empty,
  All, ok, arith, inl, inr, append_assoc, append-nil, map,
}
use bifroest.User.Columns.{join}
use bifroest.Session.PublicKeys.{Key}
use bifroest.Crypto.KeyOptions.{KeyOption, Quoting, type_name, unmarshal_option}
use bifroest.Crypto.KeyOptions.Marshalled.{
  is_word, is_covered, in_quotes, IsPlain, option_text, type_name-word, unmarshal_option-IsPlain,
}
use bifroest.Crypto.AuthorizedKeys.{Result, part_of, add_option, scan_options}

abbrev last_of : ℕ → Bytes → ℕ
last_of previous [] = previous
last_of previous (b ∷ s) = last_of b s

module _ (q : Quoting) (parse_public_key : Bytes → Option Key) where
  abbrev scan : Bool → ℕ → Bytes → Bytes → Result (List KeyOption × Bytes)
  scan = scan_options q parse_public_key

  scan-word :
      (previous : ℕ) (so_far w rest : Bytes)
      → is_word w ≡ true
      → scan false previous so_far (w ++ rest) ≡ scan false (last_of previous w) (so_far ++ w) rest
  unfolding scan_options part_of
  scan-word previous so_far [] rest h = ground (arith, append-nil so_far)
  scan-word previous so_far (b ∷ w) rest h =
      ground (
        arith,
        scan-word b (so_far ++ b ∷ []) w rest (ground arith),
        append_assoc so_far (b ∷ []) w,
      )

  scan-closing :
      (previous : ℕ) (so_far rest : Bytes)
      → previous ≢ b'\\'
      → scan true previous so_far (b'"' ∷ rest) ≡ scan false b'"' (so_far ++ b'"' ∷ []) rest
  unfolding scan_options part_of
  scan-closing previous so_far rest h = ground arith

  -- In quotes, a covered text is taken as it stands, up to the quote behind it.
  scan-covered :
      (previous : ℕ) (so_far v rest : Bytes)
      → is_covered previous v ≡ true
      → scan true previous so_far (v ++ b'"' ∷ rest)
        ≡ scan false b'"' ((so_far ++ v) ++ b'"' ∷ []) rest
  unfolding scan_options part_of
  scan-covered previous so_far [] rest h =
      scan-closing previous so_far rest (ground arith)
      ∙ ap (λ s. scan false b'"' (s ++ b'"' ∷ []) rest) (sym (append-nil so_far))
  scan-covered previous so_far (b ∷ v) rest h = ground (
    arith,
    scan-covered b (so_far ++ b ∷ []) v rest (ground arith),
    append_assoc so_far (b ∷ []) v,
  )

  scan-equals :
      (previous : ℕ) (so_far rest : Bytes)
      → scan false previous so_far (b'=' ∷ b'"' ∷ rest)
        ≡ scan true b'"' ((so_far ++ b'=' ∷ []) ++ b'"' ∷ []) rest
  unfolding scan_options part_of
  scan-equals previous so_far rest = refl

  text_of_parts :
      (name v : Bytes)
      → ((((name ++ b'=' ∷ []) ++ b'"' ∷ []) ++ v) ++ b'"' ∷ []) ≡ (name ++ b'=' ∷ in_quotes v)
  text_of_parts name v = ground (
    arith,
    append_assoc name (b'=' ∷ []) (b'"' ∷ []),
    append_assoc name (b'=' ∷ b'"' ∷ []) v,
    append_assoc name (b'=' ∷ b'"' ∷ v) (b'"' ∷ []),
  )

  text-rest :
      (name v rest : Bytes)
      → ((name ++ b'=' ∷ in_quotes v) ++ rest) ≡ (name ++ (b'=' ∷ b'"' ∷ (v ++ b'"' ∷ rest)))
  text-rest name v rest =
      ground (arith, append_assoc name (b'=' ∷ in_quotes v) rest, append_assoc v (b'"' ∷ []) rest)

  scan-valued :
      (previous : ℕ) (name v rest : Bytes)
      → is_word name ≡ true
      → is_covered b'"' v ≡ true
      → scan false previous [] ((name ++ b'=' ∷ in_quotes v) ++ rest)
        ≡ scan false b'"' (name ++ b'=' ∷ in_quotes v) rest
  scan-valued previous name v rest word covered =
      ap (scan false previous []) (text-rest name v rest)
      ∙ scan-word previous [] name (b'=' ∷ b'"' ∷ (v ++ b'"' ∷ rest)) word
      ∙ scan-equals (last_of previous name) name (v ++ b'"' ∷ rest)
      ∙ scan-covered b'"' ((name ++ b'=' ∷ []) ++ b'"' ∷ []) v rest covered
      ∙ ap (λ text. scan false b'"' text rest) (text_of_parts name v)

  -- A whole option becomes the option so far.
  scan-IsPlain :
      (previous : ℕ) (o : KeyOption) (rest : Bytes)
      → IsPlain q o
      → (p : ℕ) × (scan false previous [] (option_text q o ++ rest)
          ≡ scan false p (option_text q o) rest)
  scan-IsPlain previous o rest is_plain = elim is_plain.value_fits [
    | inl (bare, nothing) ↦ (
      last_of previous (type_name o.kind),
      ground (arith, bare, scan-word previous [] (type_name o.kind) rest (type_name-word o.kind)),
    )
    | inr (valued, quotable) ↦ (
      b'"',
      ground (
        arith,
        valued,
        quotable.quoted,
        scan-valued previous (type_name o.kind) quotable.body rest (type_name-word o.kind)
            quotable.covered,
      ),
    )
  ]

  some-append : (s t : Bytes) → is_empty s ≡ false → is_empty (s ++ t) ≡ false
  some-append [] t h = absurd (cc)
  some-append (b ∷ s) t h = refl

  option_text-some : (o : KeyOption) → IsPlain q o → is_empty (option_text q o) ≡ false
  option_text-some o is_plain = elim is_plain.value_fits [
    | inl (bare, nothing) ↦ ground (arith, bare, is_plain.some_name)
    | inr (valued, quotable) ↦
        ground (
          arith,
          valued,
          some-append (type_name o.kind) (b'=' ∷ q.quote o.value) is_plain.some_name,
        )
  ]

  add_option-some :
      (text : Bytes) (o : KeyOption)
      → is_empty text ≡ false
      → unmarshal_option q text ≡ ok o
      → add_option q parse_public_key text ≡ ok (o ∷ [])
  unfolding add_option
  add_option-some [] o given read = absurd (cc)
  add_option-some (b ∷ s) o given read = ground (arith, read)

  add_option-IsPlain :
      (o : KeyOption) → IsPlain q o → add_option q parse_public_key (option_text q o) ≡ ok (o ∷ [])
  add_option-IsPlain o is_plain =
      add_option-some (option_text q o) o (option_text-some o is_plain)
        (unmarshal_option-IsPlain q o is_plain)

  -- The options before a key, as they are written.
  abbrev pub options_text : List KeyOption → Bytes
  options_text os = join b',' (map (option_text q) os)

  -- Written options are read back, up to the blank behind them.
  pub scan_options-IsPlain :
      (previous : ℕ) (o : KeyOption) (os : List KeyOption) (rest : Bytes)
      → All (IsPlain q) (o ∷ os)
      → scan false previous [] (options_text (o ∷ os) ++ b' ' ∷ rest) ≡ ok (o ∷ os, b' ' ∷ rest)
  unfolding join scan_options part_of
  scan_options-IsPlain previous o [] rest (is_plain, _) =
      let (p, scanned) = scan-IsPlain previous o (b' ' ∷ rest) is_plain in
      ground (arith, scanned, add_option-IsPlain o is_plain)
  scan_options-IsPlain previous o (o' ∷ os) rest (is_plain, others) =
      let (p, scanned) =
        scan-IsPlain previous o (b',' ∷ options_text (o' ∷ os) ++ b' ' ∷ rest) is_plain in
      ground (
        arith,
        scanned,
        append_assoc (option_text q o) (b',' ∷ options_text (o' ∷ os)) (b' ' ∷ rest),
        add_option-IsPlain o is_plain,
        scan_options-IsPlain b',' o' os rest others,
      )

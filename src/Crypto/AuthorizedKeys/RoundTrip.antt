-- ===== src/Crypto/AuthorizedKeys/RoundTrip.antt =====
-- A line of authorized keys that is written is read back.
use bifroest.Prelude.{
  ℕ, ◌≡◌, sym, ap, subst, ◌∙◌, true, false, List, [], ◌∷◌, ◌++◌, Option, none, some, Bytes, All, ok,
  arith, Bool-cases, inl, inr, append_assoc, append-nil,
}
use bifroest.User.Columns.{join}
use bifroest.Session.PublicKeys.{Key}
use bifroest.Crypto.KeyOptions.{KeyOption, Quoting, has_value, type_name, marshal_option}
use bifroest.Crypto.KeyOptions.Marshalled.{IsPlain, option_text, marshal_option-IsPlain}
use bifroest.Crypto.AuthorizedKeys.{
  KeyLine, is_space, trim_space, cut_off_ssh_key_algo, skip_blanks, key_line, parse_authorized_key,
  scan_options,
}
use bifroest.Crypto.AuthorizedKeys.Scanned.{options_text, scan_options-IsPlain}
use bifroest.Crypto.AuthorizedKeys.Trimmed.{trim_space-dark, trim_space-line}
use bifroest.Crypto.AuthorizedKeys.Words.{
  KeyAlgo, algo_name, is_dark, cut_blank-dark, cut_off-option, IsStart, type_name-IsStart,
  algo_name-IsStart, algo_name-dark, algo_name-known,
}

module _ (q : Quoting) (parse_public_key : Bytes → Option Key) (algo : KeyAlgo) (key_text : Bytes)
    (key : Key) (dark : is_dark key_text ≡ true) (decodes : parse_public_key key_text ≡ some key)
    (comment : Bytes) (last : ℕ) (ends_dark : is_space last ≡ false) where
  -- The name of the algorithm, the key and the comment
  abbrev pub key_part : Bytes
  key_part = algo_name algo ++ b' ' ∷ (key_text ++ b' ' ∷ (comment ++ last ∷ []))

  abbrev pub as_read : List KeyOption → KeyLine
  as_read os = record { key = key; comment = trim_space (comment ++ last ∷ []); options = os }

  cut_off-algo : cut_off_ssh_key_algo key_part ≡ some (key_text ++ b' ' ∷ (comment ++ last ∷ []))
  unfolding cut_off_ssh_key_algo
  cut_off-algo = ground (
    arith,
    cut_blank-dark (algo_name algo) (key_text ++ b' ' ∷ (comment ++ last ∷ []))
        (algo_name-dark algo),
    algo_name-known algo,
  )

  key_line-read :
      (os : List KeyOption)
      → key_line q parse_public_key os (key_text ++ b' ' ∷ (comment ++ last ∷ [])) ≡ ok (as_read os)
  unfolding key_line
  key_line-read os = ground (
    arith,
    cut_blank-dark key_text (comment ++ last ∷ []) dark,
    trim_space-dark key_text dark,
    decodes,
  )

  skip_blanks-start :
      (w s : Bytes) → IsStart w → skip_blanks q parse_public_key (b' ' ∷ (w ++ s)) ≡ (w ++ s)
  unfolding skip_blanks
  skip_blanks-start w s start = ground (arith, start.starts, start.no_space)

  IsStart-append : (w s : Bytes) → IsStart w → IsStart (w ++ s)
  IsStart-append w s start = record {
    first = start.first;
    others = start.others ++ s;
    starts = ap (λ v. v ++ s) start.starts;
    no_space = start.no_space;
    no_comment = start.no_comment;
  }

  parse-direct :
      (line rest : Bytes) (l : KeyLine)
      → IsStart line
      → trim_space line ≡ line
      → cut_off_ssh_key_algo line ≡ some rest
      → key_line q parse_public_key [] rest ≡ ok l
      → parse_authorized_key q parse_public_key line ≡ ok (some l)
  unfolding parse_authorized_key
  parse-direct line rest l start trimmed cut read =
      ground (arith, trimmed, start.starts, start.no_comment, cut, read)

  parse-options :
      (line left rest : Bytes) (os : List KeyOption) (l : KeyLine)
      → IsStart line
      → trim_space line ≡ line
      → cut_off_ssh_key_algo line ≡ none
      → scan_options q parse_public_key false 0 [] line ≡ ok (os, left)
      → cut_off_ssh_key_algo (skip_blanks q parse_public_key left) ≡ some rest
      → key_line q parse_public_key os rest ≡ ok l
      → parse_authorized_key q parse_public_key line ≡ ok (some l)
  unfolding parse_authorized_key
  parse-options line left rest os l start trimmed uncut scanned cut read =
      ground (arith, trimmed, start.starts, start.no_comment, uncut, scanned, cut, read)

  key_front : Bytes
  key_front = b' ' ∷ (key_text ++ b' ' ∷ comment)

  front-last : b' ' ∷ (key_text ++ b' ' ∷ (comment ++ last ∷ [])) ≡ (key_front ++ last ∷ [])
  unfolding key_front
  front-last = ap (λ v. b' ' ∷ v) (sym (append_assoc key_text (b' ' ∷ comment) (last ∷ [])))

  key_part-trimmed : trim_space key_part ≡ key_part
  key_part-trimmed =
      let same = ap (λ v. algo_name algo ++ v) front-last in
      ap trim_space same
      ∙ trim_space-line (algo_name algo) key_front last (algo_name-IsStart algo) ends_dark
      ∙ sym same

  -- What is behind the name of the first option.
  option-start : (o : KeyOption) → (x : Bytes) × (option_text q o ≡ (type_name o.kind ++ x))
  option-start o = elim (Bool-cases (has_value o.kind)) [
    | inl valued ↦ (b'=' ∷ q.quote o.value, ground (arith, valued))
    | inr bare ↦ ([], ground (arith, bare, append-nil (type_name o.kind)))
  ]

  options-start :
      (o : KeyOption) (os : List KeyOption)
      → (x : Bytes) × (options_text q parse_public_key (o ∷ os) ≡ (type_name o.kind ++ x))
  unfolding join
  options-start o [] = option-start o
  options-start o (o' ∷ os) =
      let (x, starts) = option-start o in
      let more = b',' ∷ options_text q parse_public_key (o' ∷ os) in
      (x ++ more, ap (λ v. v ++ more) starts ∙ append_assoc (type_name o.kind) x more)

  abbrev pub line_of : List KeyOption → Bytes
  line_of [] = key_part
  line_of (o ∷ os) = options_text q parse_public_key (o ∷ os) ++ b' ' ∷ key_part

  -- The line of some options, by the name of the first of them.
  line_of-start :
      (o : KeyOption) (os : List KeyOption)
      → (x : Bytes) × (line_of (o ∷ os) ≡ (type_name o.kind ++ (x ++ last ∷ [])))
  line_of-start o os =
      let (x, starts) = options-start o os in
      let ends : (b' ' ∷ key_part) ≡ ((b' ' ∷ (algo_name algo ++ key_front)) ++ last ∷ []) =
        ap (λ v. b' ' ∷ (algo_name algo ++ v)) front-last
        ∙ ap (λ v. b' ' ∷ v) (sym (append_assoc (algo_name algo) key_front (last ∷ []))) in
      let front = b' ' ∷ (algo_name algo ++ key_front) in
      (
        x ++ front,
        ap (λ v. v ++ b' ' ∷ key_part) starts
            ∙ append_assoc (type_name o.kind) x (b' ' ∷ key_part)
            ∙ ap (λ v. type_name o.kind ++ (x ++ v)) ends
            ∙ ap (λ v. type_name o.kind ++ v) (sym (append_assoc x front (last ∷ []))),
      )

  parse-line :
      (os : List KeyOption)
      → All (IsPlain q) os
      → parse_authorized_key q parse_public_key (line_of os) ≡ ok (some (as_read os))
  parse-line [] _ =
      parse-direct key_part (key_text ++ b' ' ∷ (comment ++ last ∷ [])) (as_read [])
        (IsStart-append (algo_name algo) (b' ' ∷ (key_text ++ b' ' ∷ (comment ++ last ∷ [])))
          (algo_name-IsStart algo))
        key_part-trimmed cut_off-algo (key_line-read [])
  parse-line (o ∷ os) (is_plain, others) =
      let (x, starts) = line_of-start o os in
      let named = type_name-IsStart o.kind is_plain.some_name in
      let started = IsStart-append (type_name o.kind) (x ++ last ∷ []) named in
      parse-options (line_of (o ∷ os)) (b' ' ∷ key_part) (key_text ++ b' ' ∷ (comment ++ last ∷ []))
        (o ∷ os) (as_read (o ∷ os)) (subst IsStart (sym starts) started)
        (ap trim_space starts
          ∙ trim_space-line (type_name o.kind) x last named ends_dark
          ∙ sym starts)
        (ap cut_off_ssh_key_algo starts ∙ cut_off-option o.kind (x ++ last ∷ []) is_plain.some_name)
        (scan_options-IsPlain q parse_public_key 0 o os key_part (is_plain, others))
        (ap cut_off_ssh_key_algo (
            skip_blanks-start (algo_name algo) (b' ' ∷ (key_text ++ b' ' ∷ (comment ++ last ∷ [])))
              (algo_name-IsStart algo))
          ∙ cut_off-algo)
        (key_line-read (o ∷ os))

  marshalled :
      (os : List KeyOption)
      → All (IsPlain q) os
      → All (λ o. marshal_option q o ≡ ok (option_text q o)) os
  marshalled [] _ = tt
  marshalled (o ∷ os) (is_plain, others) =
      (marshal_option-IsPlain q o is_plain, marshalled os others)

  -- Options that have a name, and a value exactly if they take one, which is not empty, is unquoted as
  -- it was, and is quoted with each quote in it behind a backslash and no backslash at its end (so not
  -- a value that itself ends with one), are marshalled; and a line of their texts by commas, the name
  -- of an algorithm, the text of a key that decodes and has no space, and a comment that ends with no
  -- space, a blank between them, is read as just that key, with the options and the trimmed comment.
  -- Options are not needed.
  pub parse_authorized_key-line :
      (os : List KeyOption)
      → All (IsPlain q) os
      → All (λ o. marshal_option q o ≡ ok (option_text q o)) os
        × (parse_authorized_key q parse_public_key (line_of os) ≡ ok (some (as_read os)))
  parse_authorized_key-line os is_plain = (marshalled os is_plain, parse-line os is_plain)

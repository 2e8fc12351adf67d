-- ===== src/User/Names/Safe.antt =====
-- What validation keeps out of a column: the separators of the files.
use bifroest.Prelude.{
  ℕ, ◌≡◌, refl, ◌∙◌, ◌≢◌, ◌<◌, ◌≤◌, ◌+◌, ◌⊎◌, inl, inr, leb, ltb, ◌==◌, ◌&&◌, ◌||◌, Bool, true,
  false, [], ◌∷◌, Bytes, length, All, arith, ok,
}
use bifroest.User.Errors.{EtcError, illegal_user_name, illegal_geocs}
use bifroest.User.Names.{
  is_reserved, bad_loop, name_loop, text_loop, validate_bad_unix_user, validate_unix_name,
  validate_user_name, validate_group_name, validate_geocs, validate_colon_file_path_column,
}

-- A byte that separates nothing: neither a column, nor a list item, nor a line.
pub record IsSafe (c : ℕ) : Type 0 where
  pub no_colon : c ≢ b':'
  pub no_comma : c ≢ b','
  pub printable : 32 < c

-- A byte that a column with free text may hold.
pub record IsText (c : ℕ) : Type 0 where
  pub no_colon : c ≢ b':'
  pub no_newline : c ≢ b'\n'
  pub no_nul : c ≢ 0

bad_loop-IsSafe :
    (i : ℕ) (name : Bytes) (e : EtcError) → bad_loop i name e ≡ ok tt → All IsSafe name
unfolding bad_loop is_reserved
bad_loop-IsSafe i [] e h = tt
bad_loop-IsSafe i (c ∷ cs) e h = ground (arith, bad_loop-IsSafe (i + 1) cs e)

name_loop-IsSafe :
    (i n : ℕ) (seen : Bool) (name : Bytes) (e : EtcError)
    → name_loop i n seen name e ≡ ok tt
    → All IsSafe name
unfolding name_loop
name_loop-IsSafe i n seen [] e h = tt
name_loop-IsSafe i n seen (c ∷ cs) e h =
    ground (arith, name_loop-IsSafe (i + 1) n true cs e, name_loop-IsSafe (i + 1) n seen cs e)

text_loop-IsText : (s : Bytes) (e : EtcError) → text_loop s e ≡ ok tt → All IsText s
unfolding text_loop
text_loop-IsText [] e h = tt
text_loop-IsText (c ∷ cs) e h = ground (arith, text_loop-IsText cs e)

-- What an accepted name of a user or a group satisfies, whichever characters are tolerated.
pub record IsAccepted (name : Bytes) : Type 0 where
  pub nonempty : 0 < length name
  pub short : length name ≤ 32
  pub safe : All IsSafe name

bad_unix_user-IsAccepted :
    (name : Bytes) (a b c : EtcError) → validate_bad_unix_user name a b c ≡ ok tt → IsAccepted name
unfolding validate_bad_unix_user
bad_unix_user-IsAccepted name a b c h = record {
  nonempty = ground arith;
  short = ground arith;
  safe = bad_loop-IsSafe 0 name c (ground arith);
}

unix_name-IsAccepted :
    (name : Bytes) (a b c : EtcError) → validate_unix_name name a b c ≡ ok tt → IsAccepted name
unfolding validate_unix_name
unix_name-IsAccepted name a b c h = record {
  nonempty = ground arith;
  short = ground arith;
  safe = name_loop-IsSafe 0 (length name) false name c (ground arith);
}

-- An accepted user name holds 1 to 32 bytes, none of which is a separator or a control character,
-- also where bad names are tolerated.
pub user_name-IsAccepted :
    (name : Bytes) (allow_bad : Bool) → validate_user_name name allow_bad ≡ ok tt → IsAccepted name
unfolding validate_user_name
user_name-IsAccepted name true h = bad_unix_user-IsAccepted name _ _ _ h
user_name-IsAccepted name false h = unix_name-IsAccepted name _ _ _ h

pub group_name-IsAccepted :
    (name : Bytes) (allow_bad : Bool) → validate_group_name name allow_bad ≡ ok tt → IsAccepted name
unfolding validate_group_name
group_name-IsAccepted name true h = bad_unix_user-IsAccepted name _ _ _ h
group_name-IsAccepted name false h = unix_name-IsAccepted name _ _ _ h

pub geocs-IsText : (s : Bytes) → validate_geocs s ≡ ok tt → All IsText s
unfolding validate_geocs
geocs-IsText s h = text_loop-IsText s illegal_geocs (ground arith)

pub path-IsText :
    (s : Bytes) (a b c : EtcError) → validate_colon_file_path_column s a b c ≡ ok tt → All IsText s
unfolding validate_colon_file_path_column
path-IsText s a b c h = text_loop-IsText s c (ground arith)

-- No byte of the strict rules is reserved.
unreserved_range :
    (c : ℕ)
    → (b'a' ≤ c) × (c ≤ b'z') ⊎ (b'A' ≤ c) × (c ≤ b'Z') ⊎ (b'0' ≤ c) × (c ≤ b'9')
    → is_reserved c ≡ false
unfolding is_reserved
unreserved_range c h = ground arith

unreserved_mark :
    (c : ℕ) → (c ≡ b'_') ⊎ (c ≡ b'.') ⊎ (c ≡ b'-') ⊎ (c ≡ b'$') → is_reserved c ≡ false
unfolding is_reserved
unreserved_mark c h = ground arith

-- The bytes that the strict rules accept at index `i`.
abbrev Strict : ℕ → ℕ → Type 0
Strict i c =
    (leb b'a' c && leb c b'z' ≡ true)
    ⊎ (leb b'A' c && leb c b'Z' ≡ true)
    ⊎ (leb b'0' c && leb c b'9' ≡ true)
    ⊎ (c == b'_' || c == b'.' ≡ true)
    ⊎ (ltb 0 i && c == b'-' ≡ true)
    ⊎ (c == b'$' ≡ true)

name_loop-step :
    (i n : ℕ) (seen : Bool) (c : ℕ) (cs : Bytes) (e : EtcError)
    → name_loop i n seen (c ∷ cs) e ≡ ok tt
    → Strict i c
      × ((name_loop (i + 1) n true cs e ≡ ok tt) ⊎ (name_loop (i + 1) n seen cs e ≡ ok tt))
unfolding name_loop
name_loop-step i n seen c cs e h = (ground arith, ground arith)

Strict-bad_loop :
    (i c : ℕ) (cs : Bytes) (e : EtcError)
    → Strict i c
    → bad_loop i (c ∷ cs) e ≡ bad_loop (i + 1) cs e
unfolding bad_loop
Strict-bad_loop i c cs e h = ground (arith, unreserved_range c, unreserved_mark c)

name_loop-bad_loop :
    (i n : ℕ) (seen : Bool) (name : Bytes) (e e' : EtcError)
    → name_loop i n seen name e ≡ ok tt
    → bad_loop i name e' ≡ ok tt
name_loop-bad_loop i n seen [] e e' h = unfold bad_loop in refl
name_loop-bad_loop i n seen (c ∷ cs) e e' h =
    let (strict, rest) = name_loop-step i n seen c cs e h in
    Strict-bad_loop i c cs e' strict ∙ elim rest [
      | inl r ↦ name_loop-bad_loop (i + 1) n true cs e e' r
      | inr r ↦ name_loop-bad_loop (i + 1) n seen cs e e' r
    ]

-- Every name that the strict rules accept is accepted where bad names are tolerated too.
pub strict-tolerated :
    (name : Bytes) → validate_user_name name false ≡ ok tt → validate_user_name name true ≡ ok tt
unfolding validate_user_name validate_unix_name validate_bad_unix_user
strict-tolerated name h =
    ground
      (arith, name_loop-bad_loop 0 (length name) false name illegal_user_name illegal_user_name)

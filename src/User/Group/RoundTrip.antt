-- ===== src/User/Group/RoundTrip.antt =====
-- Entries of group are written and read back without loss.
use bifroest.Prelude.{
  ◌<◌, ◌≡◌, ◌≢◌, refl, inl, inr, Bool, false, append-nil, List, [], ◌∷◌, ◌++◌, some, Bytes, length,
  is_empty, All, All-append, All-map, Lacks, arith, ok, Result-cases, if◌then◌else◌,
}
use bifroest.User.Errors.{empty_gid, illegal_gid}
use bifroest.User.Names.Safe.{IsSafe, IsAccepted, user_name-IsAccepted, group_name-IsAccepted}
use bifroest.User.Columns.{u32_mod, split, join, format_uint, parse_uint32_column}
use bifroest.User.Columns.Parts.{split-join}
use bifroest.User.Columns.Decimal.{format_uint-IsDigit, parse_column-format_uint, parse_column-lt}
use bifroest.User.Value.{IsPlain, EntryLaws}
use bifroest.User.Value.Plain.{safe-IsPlain, digits-IsPlain}
use bifroest.User.Group.{
  EtcGroupEntry, etc_group_colons, columns, validate_user_names, validate, decode, encode, value,
}

pub record IsWellFormed (e : EtcGroupEntry) : Type 0 where
  pub gid : e.gid < u32_mod
  pub password : All IsPlain e.password

user_names-IsAccepted :
    (ns : List Bytes) (allow_bad : Bool)
    → validate_user_names ns allow_bad ≡ ok tt
    → All IsAccepted ns
unfolding validate_user_names
user_names-IsAccepted [] allow_bad h = tt
user_names-IsAccepted (n ∷ ns) allow_bad h = (
  user_name-IsAccepted n allow_bad (ground arith),
  user_names-IsAccepted ns allow_bad (ground arith),
)

validate-names :
    (e : EtcGroupEntry) (allow_bad : Bool)
    → validate e allow_bad ≡ ok tt
    → IsAccepted e.name × All IsAccepted e.user_names
unfolding validate
validate-names e allow_bad h = (
  group_name-IsAccepted e.name allow_bad (ground arith),
  user_names-IsAccepted e.user_names allow_bad (ground arith),
)

join-IsPlain : (ns : List Bytes) → All IsAccepted ns → All IsPlain (join b',' ns)
unfolding join
join-IsPlain [] h = tt
join-IsPlain (n ∷ []) (hn, _) = safe-IsPlain n hn.safe
join-IsPlain (n ∷ m ∷ ns) (hn, hs) = All-append IsPlain n _ (safe-IsPlain n hn.safe) (
  record { no_colon = omega arith; no_newline = omega arith; no_return = omega arith },
  join-IsPlain (m ∷ ns) hs,
)

name-Lacks : (ns : List Bytes) → All IsAccepted ns → All (Lacks b',') ns
name-Lacks ns h =
    All-map IsAccepted (Lacks b',')
      (λ n k. All-map IsSafe (λ c. c ≢ b',') (λ c safe. safe.no_comma) n k.safe) ns h

name-nonempty : (n rest : Bytes) → IsAccepted n → is_empty (n ++ rest) ≡ false
name-nonempty [] rest h = absurd (omega arith)
name-nonempty (c ∷ n) rest h = refl

join-nonempty : (n : Bytes) (ns : List Bytes) → IsAccepted n → is_empty (join b',' (n ∷ ns)) ≡ false
unfolding join
join-nonempty n [] h = rw (← append-nil n) (name-nonempty n [] h)
join-nonempty n (m ∷ ns) h = name-nonempty n _ h

-- What `decode` makes of the last column gives back the names that were joined.
join-names :
    (ns : List Bytes)
    → All IsAccepted ns
    → (if is_empty (join b',' ns) then [] else split b',' (join b',' ns)) ≡ ns
join-names [] h = unfold join in refl
join-names (n ∷ ns) h =
    rw (join-nonempty n ns h.0) (split-join b',' (n ∷ ns) (cc) (name-Lacks (n ∷ ns) h))

encode-eq-ok :
    (e : EtcGroupEntry) (allow_bad : Bool) (cols : List Bytes)
    → encode e allow_bad ≡ ok cols
    → (validate e allow_bad ≡ ok tt) × (cols ≡ columns e)
unfolding encode
encode-eq-ok e allow_bad cols h = (ground arith, ground arith)

-- An entry that is written is read back unchanged, its list of users included, if its id is a uint32
-- and no colon, newline or return stands in its password (`validate` does not look at it).
pub decode-encode_group :
    (e : EtcGroupEntry) (allow_bad : Bool) (cols : List Bytes)
    → IsWellFormed e
    → encode e allow_bad ≡ ok cols
    → decode cols allow_bad ≡ ok e
unfolding decode
decode-encode_group e allow_bad cols wf h =
    let (valid, shape) = encode-eq-ok e allow_bad cols h in
    let (_, names) = validate-names e allow_bad valid in
    rw
      (
        shape,
        parse_column-format_uint e.gid (some empty_gid) illegal_gid wf.gid,
        join-names e.user_names names,
      )
      (rw valid)

module _ (n p g us : Bytes) (allow_bad : Bool) (e : EtcGroupEntry)
    (eq : decode (n ∷ p ∷ g ∷ us ∷ []) allow_bad ≡ ok e) where
  decoded_gid : e.gid < u32_mod
  unfolding decode
  decoded_gid = elim (Result-cases (parse_uint32_column g (some empty_gid) illegal_gid)) [
    | inl (r, read) ↦ ground (arith, parse_column-lt g (some empty_gid) illegal_gid r.0 r.1 read)
    | inr (x, failed) ↦ ground arith
  ]

  decoded_password : (e.password ≡ p) × (validate e allow_bad ≡ ok tt)
  unfolding decode
  decoded_password = ground arith

pub decode-IsWellFormed :
    (cols : List Bytes) (allow_bad : Bool) (e : EtcGroupEntry)
    → All (All IsPlain) cols
    → decode cols allow_bad ≡ ok e
    → IsWellFormed e
decode-IsWellFormed (n ∷ p ∷ g ∷ us ∷ []) allow_bad e plain eq = record {
  gid = decoded_gid n p g us allow_bad e eq;
  password = rw ((decoded_password n p g us allow_bad e eq).0) plain.1.0;
}
decode-IsWellFormed _ allow_bad e plain eq = unfold decode in cc

pub encode_decoded :
    (cols : List Bytes) (allow_bad : Bool) (e : EtcGroupEntry)
    → decode cols allow_bad ≡ ok e
    → (out : List Bytes) × (encode e allow_bad ≡ ok out)
encode_decoded (n ∷ p ∷ g ∷ us ∷ []) allow_bad e eq =
    let valid = (decoded_password n p g us allow_bad e eq).1 in
    (columns e, unfold encode in rw valid)
encode_decoded _ allow_bad e eq = unfold decode in cc

pub encode-IsPlain :
    (e : EtcGroupEntry) (allow_bad : Bool) (cols : List Bytes)
    → IsWellFormed e
    → encode e allow_bad ≡ ok cols
    → All (All IsPlain) cols × (length cols ≡ etc_group_colons)
encode-IsPlain e allow_bad cols wf h =
    let (valid, shape) = encode-eq-ok e allow_bad cols h in
    let (name_ok, names) = validate-names e allow_bad valid in
    rw shape (
      (assumption (
        safe-IsPlain e.name name_ok.safe,
        digits-IsPlain (format_uint e.gid) (format_uint-IsDigit e.gid),
        join-IsPlain e.user_names names,
        wf,
      )),
      refl,
    )

pub laws : EntryLaws value etc_group_colons
laws = record {
  IsWellFormed = IsWellFormed;
  several = omega arith;
  decode-IsWellFormed = decode-IsWellFormed;
  encode_decoded = encode_decoded;
  encode-IsPlain = encode-IsPlain;
  decode-encode = decode-encode_group;
}

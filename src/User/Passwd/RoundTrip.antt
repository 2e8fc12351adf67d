-- ===== src/User/Passwd/RoundTrip.antt =====
-- Entries of passwd are written and read back without loss.
use bifroest.Prelude.{
  ◌<◌, ◌≡◌, refl, inl, inr, Bool, List, [], ◌∷◌, some, Bytes, length, All, arith, ok, Result-cases,
}
use bifroest.User.Errors.{empty_uid, illegal_uid, empty_gid, illegal_gid}
use bifroest.User.Names.Safe.{IsAccepted, user_name-IsAccepted}
use bifroest.User.Columns.{u32_mod, format_uint, parse_uint32_column}
use bifroest.User.Columns.Decimal.{format_uint-IsDigit, parse_column-format_uint, parse_column-lt}
use bifroest.User.Value.{IsPlain, EntryLaws}
use bifroest.User.Passwd.{
  EtcPasswdEntry, etc_passwd_colons, columns, validate, decode, encode, value,
}
use bifroest.User.Value.Plain.{safe-IsPlain, digits-IsPlain}

pub record IsWellFormed (e : EtcPasswdEntry) : Type 0 where
  pub uid : e.uid < u32_mod
  pub gid : e.gid < u32_mod
  pub password : All IsPlain e.password
  pub geocs : All IsPlain e.geocs
  pub home_dir : All IsPlain e.home_dir
  pub shell : All IsPlain e.shell

validate-IsAccepted :
    (e : EtcPasswdEntry) (allow_bad : Bool) → validate e allow_bad ≡ ok tt → IsAccepted e.name
unfolding validate
validate-IsAccepted e allow_bad h = user_name-IsAccepted e.name allow_bad (ground arith)

-- The columns that are written, and that the entry was valid.
encode-eq-ok :
    (e : EtcPasswdEntry) (allow_bad : Bool) (cols : List Bytes)
    → encode e allow_bad ≡ ok cols
    → (validate e allow_bad ≡ ok tt) × (cols ≡ columns e)
unfolding encode
encode-eq-ok e allow_bad cols h = (ground arith, ground arith)

-- An entry that is written is read back unchanged, if its ids are uint32 and no colon, newline or
-- return stands in its password, geocs, home directory and shell (`validate` lets a return through).
pub decode-encode_passwd :
    (e : EtcPasswdEntry) (allow_bad : Bool) (cols : List Bytes)
    → IsWellFormed e
    → encode e allow_bad ≡ ok cols
    → decode cols allow_bad ≡ ok e
unfolding decode
decode-encode_passwd e allow_bad cols wf h =
    let (valid, shape) = encode-eq-ok e allow_bad cols h in
    rw shape (
      ground (
        arith,
        valid,
        parse_column-format_uint e.uid (some empty_uid) illegal_uid wf.uid,
        parse_column-format_uint e.gid (some empty_gid) illegal_gid wf.gid,
      ))

module _ (n p u g ge h s : Bytes) (allow_bad : Bool) (e : EtcPasswdEntry)
    (eq : decode (n ∷ p ∷ u ∷ g ∷ ge ∷ h ∷ s ∷ []) allow_bad ≡ ok e) where
  decoded_uid : e.uid < u32_mod
  unfolding decode
  decoded_uid = elim (Result-cases (parse_uint32_column u (some empty_uid) illegal_uid)) [
    | inl (r, read) ↦ ground (arith, parse_column-lt u (some empty_uid) illegal_uid r.0 r.1 read)
    | inr (x, failed) ↦ ground arith
  ]

  decoded_gid : e.gid < u32_mod
  unfolding decode
  decoded_gid = elim (Result-cases (parse_uint32_column g (some empty_gid) illegal_gid)) [
    | inl (r, read) ↦ ground (arith, parse_column-lt g (some empty_gid) illegal_gid r.0 r.1 read)
    | inr (x, failed) ↦ ground arith
  ]

  decoded_texts :
      (e.password ≡ p)
      × (e.geocs ≡ ge)
      × (e.home_dir ≡ h)
      × (e.shell ≡ s)
      × (validate e allow_bad ≡ ok tt)
  unfolding decode
  decoded_texts = ground arith

pub decode-IsWellFormed :
    (cols : List Bytes) (allow_bad : Bool) (e : EtcPasswdEntry)
    → All (All IsPlain) cols
    → decode cols allow_bad ≡ ok e
    → IsWellFormed e
decode-IsWellFormed (n ∷ p ∷ u ∷ g ∷ ge ∷ h ∷ s ∷ []) allow_bad e plain eq =
    let (is_p, is_ge, is_h, is_s, _) = decoded_texts n p u g ge h s allow_bad e eq in
    let (_, (pp, (_, (_, (pge, (ph, (ps, _))))))) = plain in
    record {
      uid = decoded_uid n p u g ge h s allow_bad e eq;
      gid = decoded_gid n p u g ge h s allow_bad e eq;
      password = rw is_p pp;
      geocs = rw is_ge pge;
      home_dir = rw is_h ph;
      shell = rw is_s ps;
    }
decode-IsWellFormed _ allow_bad e plain eq = unfold decode in cc

pub encode_decoded :
    (cols : List Bytes) (allow_bad : Bool) (e : EtcPasswdEntry)
    → decode cols allow_bad ≡ ok e
    → (out : List Bytes) × (encode e allow_bad ≡ ok out)
encode_decoded (n ∷ p ∷ u ∷ g ∷ ge ∷ h ∷ s ∷ []) allow_bad e eq =
    let valid = (decoded_texts n p u g ge h s allow_bad e eq).4 in
    (columns e, unfold encode in rw valid)
encode_decoded _ allow_bad e eq = unfold decode in cc

pub encode-IsPlain :
    (e : EtcPasswdEntry) (allow_bad : Bool) (cols : List Bytes)
    → IsWellFormed e
    → encode e allow_bad ≡ ok cols
    → All (All IsPlain) cols × (length cols ≡ etc_passwd_colons)
encode-IsPlain e allow_bad cols wf h =
    let (valid, shape) = encode-eq-ok e allow_bad cols h in
    let name_ok = validate-IsAccepted e allow_bad valid in
    rw shape (
      (assumption (
        safe-IsPlain e.name name_ok.safe,
        digits-IsPlain (format_uint e.uid) (format_uint-IsDigit e.uid),
        digits-IsPlain (format_uint e.gid) (format_uint-IsDigit e.gid),
        wf,
      )),
      refl,
    )

unfoldable pub laws : EntryLaws value etc_passwd_colons
laws = record {
  IsWellFormed = IsWellFormed;
  several = omega arith;
  decode-IsWellFormed = decode-IsWellFormed;
  encode_decoded = encode_decoded;
  encode-IsPlain = encode-IsPlain;
  decode-encode = decode-encode_passwd;
}

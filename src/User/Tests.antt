-- ===== src/User/Tests.antt =====
-- Concrete runs of the codec of pkg/user, and the theorems at concrete files and entries.
use bifroest.Prelude.{
  ℕ, ◌+◌, ◌%◌, ◌≤◌, ◌<◌, ◌≡◌, ◌≢◌, ◌↔◌, refl, Bool, true, false, List, [], ◌∷◌, ◌++◌, none, some,
  Bytes, codes, bytes_eq, All, Lacks, arith, ok, err, is_empty, if◌then◌else◌,
}
use bifroest.Prelude
use bifroest.User.Errors.{EtcError, cannot_write, illegal_user_name}
use bifroest.User.Names.{
  is_reserved, validate_user_name, validate_group_name, validate_bad_unix_user, validate_unix_name,
  validate_geocs, validate_colon_file_path_column,
}
use bifroest.User.Columns.{split_n, split, join, parse_uint, format_uint, parse_uint32_column}
use bifroest.User.Passwd
use bifroest.User.Passwd.{EtcPasswdEntry}
use bifroest.User.Passwd.RoundTrip as PasswdTrip
use bifroest.User.Group
use bifroest.User.Group.{EtcGroupEntry}
use bifroest.User.Group.RoundTrip as GroupTrip
use bifroest.User.Shadow
use bifroest.User.Shadow.{EtcShadowEntry}
use bifroest.User.Shadow.RoundTrip as ShadowTrip
use bifroest.User.Shadow.Password.{IsCurrent, validate_password_iff}
use bifroest.User.Colon.{
  EtcColonEntry, good_entry, stays_in_place, scan_lines, decode_line, decode_lines, encode_line,
  encode_lines, decode_file, encode_file,
}
use bifroest.User.Shared.{no_provider, create, close, less_than_zero}
use bifroest.User.Shared.Counts.{
  open_handles, IsCounted, Reachable, start, created, closed, shared-IsCounted,
}
use bifroest.User.Colon.File.{drop_zero}
use bifroest.User.Colon.File.Edited.{Edited, done, keep, drop, add, edited-encode_file}
use bifroest.User.Colon.Partial.{encode_file-stops}

abbrev root : EtcPasswdEntry
root = record {
  name = codes "root";
  password = codes "x";
  uid = 0;
  gid = 0;
  geocs = codes "root";
  home_dir = codes "/root";
  shell = codes "/bin/sh";
}

abbrev passwd_text : Bytes
passwd_text = codes "root:x:0:0:root:/root:/bin/sh\n\nnobody:x\n"

abbrev passwd_entries : List (EtcColonEntry EtcPasswdEntry)
passwd_entries =
    good_entry root
    ∷ record { entry = none; raw_line = [] }
    ∷ record { entry = none; raw_line = codes "nobody:x" }
    ∷ []

-- What the runs below compute with.
codec : Unit {0}
unfolding decode_file stays_in_place scan_lines decode_lines decode_line split_n split Passwd.decode
    Passwd.validate Passwd.encode Group.decode Group.encode Group.validate Group.validate_user_names
    Shadow.decode Shadow.encode Shadow.validate Shadow.optional join encode_file encode_lines
    encode_line validate_user_name validate_group_name validate_bad_unix_user validate_unix_name
    is_reserved validate_geocs validate_colon_file_path_column parse_uint32_column parse_uint
    format_uint
codec = tt

passwd_read : decode_file Passwd.value passwd_text 7 true true ≡ some (ok passwd_entries)
unfolding codec
passwd_read = refl

root-columns : Passwd.encode root false ≡ ok (Passwd.columns root)
unfolding codec
root-columns = refl

decode-encode_passwd_example : Passwd.decode (Passwd.columns root) false ≡ ok root
decode-encode_passwd_example =
    PasswdTrip.decode-encode_passwd root false (Passwd.columns root) (omega arith) root-columns

abbrev wheel : EtcGroupEntry
wheel = record {
  name = codes "wheel";
  password = codes "x";
  gid = 10;
  user_names = codes "root" ∷ codes "jo" ∷ [];
}

wheel-columns : Group.encode wheel false ≡ ok (Group.columns wheel)
unfolding codec
wheel-columns = refl

decode-encode_group_example : Group.decode (Group.columns wheel) false ≡ ok wheel
decode-encode_group_example =
    GroupTrip.decode-encode_group wheel false (Group.columns wheel) (omega arith) wheel-columns

abbrev locked : EtcShadowEntry
locked = record {
  name = codes "jo";
  password = codes "secret";
  last_changed_at_in_days = 19000;
  minimum_age_in_days = 0;
  maximum_age_in_days = 99999;
  warn_age_in_days = 7;
  has_warn_age = true;
  inactive_age_in_days = 30;
  has_inactive_age = true;
  expire_at_ts_in_days = 0;
  has_expire = false;
}

locked-columns : Shadow.encode locked false ≡ ok (Shadow.columns locked)
unfolding codec
locked-columns = refl

locked-IsWellFormed : ShadowTrip.IsWellFormed locked
locked-IsWellFormed = record {
  password = omega arith;
  changed = omega arith;
  minimum = omega arith;
  maximum = omega arith;
  warn = record { fits = omega arith; absent = λ e. cc };
  inactive = record { fits = omega arith; absent = λ e. cc };
  expire = record { fits = omega arith; absent = λ e. refl };
}

decode-encode_shadow_example : Shadow.decode (Shadow.columns locked) false ≡ ok locked
decode-encode_shadow_example =
    ShadowTrip.decode-encode_shadow locked false (Shadow.columns locked) locked-IsWellFormed
      locked-columns

-- A name with a colon, which the validation of its own entry refuses.
abbrev broken : EtcPasswdEntry
broken = record root { name = codes "a:b" }

broken_refused : Passwd.encode broken true ≡ err illegal_user_name
unfolding codec
broken_refused = refl

root_written :
    encode_file Passwd.value (good_entry root ∷ []) true passwd_text
    ≡ (codes "root:x:0:0:root:/root:/bin/sh\n", ok tt)
unfolding codec
root_written = refl

encode_file-stops_example :
    encode_file Passwd.value
      ((good_entry root ∷ []) ++ good_entry broken ∷ good_entry root ∷ good_entry root ∷ [])
      true
      passwd_text
    ≡ (codes "root:x:0:0:root:/root:/bin/sh\n", err (cannot_write 1 illegal_user_name))
encode_file-stops_example =
    encode_file-stops Passwd.value true (good_entry root ∷ [])
      (good_entry root ∷ good_entry root ∷ []) broken passwd_text
      (codes "root:x:0:0:root:/root:/bin/sh\n") illegal_user_name root_written broken_refused

strict_root : validate_user_name (codes "root") false ≡ ok tt
unfolding codec
strict_root = refl

-- A stand-in for the crypt library: a hash is the password itself.
abbrev plain_check : Bytes → Bytes → Prelude.Result EtcError Bool
plain_check pass hash = ok (bytes_eq pass hash)

validate_password_iff_example :
    (Shadow.validate_password plain_check locked (codes "secret") 20000 ≡ ok true) ↔ (
      (Shadow.is_locked locked.password ≡ false)
      × (plain_check (codes "secret") locked.password ≡ ok true)
      × IsCurrent locked 20000)
validate_password_iff_example =
    validate_password_iff plain_check locked (codes "secret") 20000 (omega arith)

-- No inactivity for over eleven million years, and refused today.
abbrev eternal : EtcShadowEntry
eternal = record locked { maximum_age_in_days = 4294967295 }

abbrev moved_entries : List (EtcColonEntry EtcPasswdEntry)
moved_entries =
    record { entry = none; raw_line = [] }
    ∷ record { entry = none; raw_line = codes "nobody:x" }
    ∷ good_entry root
    ∷ []

root-columns_tolerant : Passwd.encode root true ≡ ok (Passwd.columns root)
unfolding codec
root-columns_tolerant = refl

root-IsWellFormed : PasswdTrip.laws.IsWellFormed root
unfolding PasswdTrip.laws
root-IsWellFormed = omega arith

-- The entry of root is taken out at the front and put in at the end.
root_moved : Edited Passwd.value 7 true true PasswdTrip.laws passwd_entries moved_entries
root_moved =
    drop _ (
      keep _ (keep _ (add root (Passwd.columns root) root-IsWellFormed root-columns_tolerant done)))

edited-encode_file_example :
    (out : Bytes) × (encode_file Passwd.value moved_entries true [] ≡ (out, ok tt))
    × (decode_file Passwd.value out 7 true true
        ≡ (if stays_in_place out then some (ok (drop_zero moved_entries)) else none))
edited-encode_file_example =
    edited-encode_file Passwd.value 7 true true PasswdTrip.laws passwd_text [] passwd_entries
      moved_entries (omega arith) passwd_read root_moved

-- A handle is created and closed, and then closed again.
two_calls : Reachable (close (ok tt) 0 (create (ok tt) no_provider).0).0
unfolding open_handles
two_calls = closed (ok tt) 0 (created (ok tt) (omega arith) start)

shared-IsCounted_example :
    IsCounted (close (ok tt) 0 (create (ok tt) no_provider).0).0
    × ((close (ok tt) 0 (close (ok tt) 0 (create (ok tt) no_provider).0).0).1 ≢ err less_than_zero)
shared-IsCounted_example =
    shared-IsCounted (close (ok tt) 0 (create (ok tt) no_provider).0).0 (ok tt) 0 two_calls
      (λ e. cc)

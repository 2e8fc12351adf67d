-- ===== src/User/Colon.antt =====
-- pkg/user/etc-colon-entry.go: one line, and all lines, of a file of columns. The bytes of a file
-- are a value here; a writer's state is what it holds, so an error shows what was written before it.
pub mod Line
pub mod Lines
pub mod Partial
pub mod File
use bifroest.Prelude.{
  ℕ, suc, ◌+◌, Bool, true, false, not, ◌&&◌, ◌||◌, List, [], ◌∷◌, ◌++◌, map, Option, none, some,
  Bytes, length, is_empty, leb, ◌==◌, if◌then◌else◌, ok, err, ◌>>=◌,
}
use bifroest.User.Errors.{EtcError, Result, illegal_columns, cannot_parse, cannot_write}
use bifroest.User.Columns.{split_n, split, join}
use bifroest.User.Value.{EtcColonEntryValue}

-- `entry` is nil for an empty line and for a bad one, of which `raw_line` keeps the bytes.
pub record EtcColonEntry (T : Type 0) : Type 0 where
  pub entry : Option T
  pub raw_line : Bytes

abbrev pub zero_entry : {T : Type 0} → EtcColonEntry T
zero_entry = record { entry = none; raw_line = [] }

abbrev pub bad_entry : {T : Type 0} → Bytes → EtcColonEntry T
bad_entry raw_line = record { entry = none; raw_line = raw_line }

abbrev pub good_entry : {T : Type 0} → T → EtcColonEntry T
good_entry e = record { entry = some e; raw_line = [] }

-- `IsZero`
abbrev pub is_zero : {T : Type 0} → EtcColonEntry T → Bool
is_zero e = elim e.entry [ none ↦ is_empty e.raw_line | some x ↦ false ]

-- `line[0]`; a split has a first part.
abbrev first : List Bytes → Bytes
first [] = []
first (p ∷ ps) = p

-- What is left of a bad line: itself, or the error where bad lines are refused.
abbrev keep : {T : Type 0} → Bool → Bytes → EtcError → Result (EtcColonEntry T)
keep allow_bad_entries raw_line e = if allow_bad_entries then ok (bad_entry raw_line) else err e

-- `bufio.ScanLines`: a line ends at a newline or at the end, without one trailing return.
unfoldable pub drop_return : Bytes → Bytes
drop_return [] = []
drop_return (c ∷ []) = if c == b'\r' then [] else c ∷ []
drop_return (c ∷ d ∷ s) = c ∷ drop_return (d ∷ s)

unfoldable pub drop_last_empty : List Bytes → List Bytes
drop_last_empty [] = []
drop_last_empty (l ∷ []) = if is_empty l then [] else l ∷ []
drop_last_empty (l ∷ m ∷ ls) = l ∷ drop_last_empty (m ∷ ls)

unfoldable pub scan_lines : Bytes → List Bytes
unfolding drop_return drop_last_empty
scan_lines text = map drop_return (drop_last_empty (split b'\n' text))

ends_with_newline : Bytes → Bool
ends_with_newline [] = true
ends_with_newline (c ∷ []) = c == b'\n'
ends_with_newline (c ∷ d ∷ s) = ends_with_newline (d ∷ s)

-- `bufio.Scanner` reads into a buffer of 4096 bytes, of which `Bytes` returns slices. It moves an
-- unfinished line to the front, over the slices that it has handed out, where that line starts in
-- the second half or where the buffer is full. For these texts no such move takes place.
unfoldable pub stays_in_place : Bytes → Bool
unfolding ends_with_newline
stays_in_place text = leb (length text) 2048 || leb (length text) 4096 && ends_with_newline text

module _ {T : Type 0} (v : EtcColonEntryValue T) where
  -- `etcColonEntry.decode`
  unfoldable pub decode_line : Bytes → ℕ → Bool → Bool → Result (EtcColonEntry T)
  decode_line raw_line colons allow_bad_name allow_bad_entries =
      let line = split_n b':' colons raw_line in
      if length line == 1 && is_empty (first line)
      then ok zero_entry
      else if not (length line == colons)
      then keep allow_bad_entries raw_line (illegal_columns colons (length line))
      else elim (v.decode line allow_bad_name) [
        | ok e ↦ ok (good_entry e)
        | err x ↦ keep allow_bad_entries raw_line x
      ]

  -- `etcColonEntry.encode`: what the writer holds afterwards, and the error.
  unfoldable pub encode_line : EtcColonEntry T → Bool → Bytes → Bytes × Result (Unit {0})
  encode_line e allow_bad_name to = elim e.entry [
    | some x ↦ elim (v.encode x allow_bad_name) [
      | ok cols ↦ (to ++ (join b':' cols ++ b'\n' ∷ []), ok tt)
      | err f ↦ (to, err f)
    ]
    | none ↦ if is_empty e.raw_line then (to, ok tt) else (to ++ (e.raw_line ++ b'\n' ∷ []), ok tt)
  ]

  -- The loop of `etcColonEntries.decode`.
  unfoldable pub decode_lines : ℕ → List Bytes → ℕ → Bool → Bool → Result (List (EtcColonEntry T))
  decode_lines line_num [] colons allow_bad_name allow_bad_entries = ok []
  decode_lines line_num (l ∷ ls) colons allow_bad_name allow_bad_entries =
      elim (decode_line l colons allow_bad_name allow_bad_entries) [
        | err x ↦ err (cannot_parse line_num x)
        | ok e ↦ do
          es ← decode_lines (line_num + 1) ls colons allow_bad_name allow_bad_entries
          ok (e ∷ es)
      ]

  -- `etcColonEntries.decode`; `none` for a text under which the scanner moves its buffer.
  unfoldable pub decode_file : Bytes → ℕ → Bool → Bool → Option (Result (List (EtcColonEntry T)))
  decode_file text colons allow_bad_name allow_bad_entries =
      if stays_in_place text
      then some (decode_lines 0 (scan_lines text) colons allow_bad_name allow_bad_entries)
      else none

  -- The loop of `etcColonEntries.encode`; it ends at the first error.
  unfoldable pub encode_lines :
      ℕ → List (EtcColonEntry T) → Bool → Bytes → Bytes × Result (Unit {0})
  encode_lines line_num [] allow_bad_name to = (to, ok tt)
  encode_lines line_num (e ∷ es) allow_bad_name to =
      let (to', r) = encode_line e allow_bad_name to in
      let rest = encode_lines (line_num + 1) es allow_bad_name to' in
      elim r [ ok u ↦ rest | err x ↦ (to', err (cannot_write line_num x)) ]

  -- `etcColonEntries.encode`: the file is emptied first, whatever it held.
  unfoldable pub encode_file : List (EtcColonEntry T) → Bool → Bytes → Bytes × Result (Unit {0})
  encode_file es allow_bad_name held = encode_lines 0 es allow_bad_name []

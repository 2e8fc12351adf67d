-- ===== src/Session/PublicKeys.antt =====
-- pkg/session/fs-repository.go: the public keys of a session, in a file for each hash.
pub mod Added
use bifroest.Prelude.{
  ℕ, ◌≤◌, ◌<◌, ◌*◌, ◌≡◌, Bool, true, false, ◌&&◌, List, [], ◌∷◌, ◌++◌, Option, none, some, Bytes,
  bytes_eq, codes, is_empty, length, leb, All, if◌then◌else◌, ok, err,
}
use bifroest.User.Columns.{split}
use bifroest.User.Colon.{drop_return, drop_last_empty}
use bifroest.User.Colon.Lines.{InLine}
use bifroest.Session.Files
use bifroest.Session.Files.{
  Entry, file, folder, Opened, opened, open_read, lookup, file_free, remove_file,
}
use bifroest.Session.Store.{
  Store, SessionError, not_a_directory, not_writable, cannot_decode, unknown_offset, Result, Action,
  Codec, fs_file_session, fs_file_public_keys_prefix,
}
use bifroest.Session.Fs.{write_file, open_file}

-- `ssh.PublicKey`, as far as it is compared.
pub record Key : Type 0 where
  pub kind : Bytes
  pub marshalled : Bytes

-- Base64 and `ssh.ParsePublicKey` on a line, and the base58 of the SHA-1 of a key.
pub record KeyCodec : Type 0 where
  pub encode_key : Key → Bytes
  pub decode_key : Bytes → Option Key
  pub hash_text : Key → Bytes

abbrev pub max_line_size : ℕ
max_line_size = 6 * 1024

-- What is written for a key is one line that is not too long, and is read back.
pub record IsWritable (kc : KeyCodec) (k : Key) : Type 0 where
  pub decode-encode_key : kc.decode_key (kc.encode_key k) ≡ some k
  pub encode_key-InLine : All InLine (kc.encode_key k)
  pub encode_key-some : is_empty (kc.encode_key k) ≡ false
  pub encode_key-short : length (kc.encode_key k) < max_line_size

abbrev pub is_same_key : Key → Key → Bool
is_same_key k candidate =
    bytes_eq k.kind candidate.kind && bytes_eq k.marshalled candidate.marshalled

-- The lines before their returns are dropped, of which the scanner takes those that fit its buffer.
unfoldable pub raw_lines : Bytes → List Bytes
raw_lines text = drop_last_empty (split b'\n' text)

abbrev pub are_short : List Bytes → Bool
are_short [] = true
are_short (l ∷ ls) = if leb max_line_size (length l) then false else are_short ls

module _ (kc : KeyCodec) where
  -- `findPublicKeyIn`, with a consumer that stops at one key; a line that is too long ends the scan
  -- without an error, a line that is no key with one.
  unfoldable pub find_public_key_in : Key → List Bytes → Result Bool
  find_public_key_in k [] = ok false
  find_public_key_in k (l ∷ ls) =
      let rest = find_public_key_in k ls in
      if leb max_line_size (length l)
      then ok false
      else if is_empty (drop_return l)
      then rest
      else elim (kc.decode_key (drop_return l)) [
        | none ↦ err cannot_decode
        | some candidate ↦ if is_same_key k candidate then ok true else rest
      ]

  -- What `deletePublicKey` writes back: for each other key, the one that is deleted.
  unfoldable pub preserved : Key → List Bytes → Result Bytes
  preserved k [] = ok []
  preserved k (l ∷ ls) =
      let rest = preserved k ls in
      if leb max_line_size (length l)
      then ok []
      else if is_empty (drop_return l)
      then rest
      else elim (kc.decode_key (drop_return l)) [
        | none ↦ err cannot_decode
        | some candidate ↦ elim rest [
          | err e ↦ err e
          | ok out ↦ if is_same_key k candidate then ok out else ok (kc.encode_key k ++ b'\n' ∷ out)
        ]
      ]

  unfoldable pub public_key_kind : Key → Bytes
  public_key_kind k = fs_file_public_keys_prefix ++ kc.hash_text k

  module _ (c : Codec) (flow : Bytes) (id : ℕ) (k : Key) where
    -- `hasPublicKey`; a folder is opened and has no lines.
    unfoldable pub has_public_key : Store → Result Bool
    unfolding find_public_key_in
    has_public_key r = elim (open_read r.storage flow (c.id_text id) (public_key_kind k)) [
      | Opened.missing ↦ ok false
      | Opened.not_a_directory ↦ err not_a_directory
      | opened folder ↦ ok false
      | opened (file f) ↦ find_public_key_in k (raw_lines f.content)
    ]

    abbrev pub append_key : ℕ → Bytes → Action (Unit {0})
    append_key now content =
        write_file c flow id (public_key_kind k)
          (record { content = content ++ (kc.encode_key k ++ b'\n' ∷ []); changed_at = now })

    -- `addPublicKey`; where a line is too long, the place of the write is not modelled.
    unfoldable pub add_public_key : ℕ → Action (Unit {0})
    unfolding find_public_key_in
    add_public_key now r = elim (open_file c r flow id fs_file_session) [
      | err e ↦ (r, err e)
      | ok _ ↦ elim (open_read r.storage flow (c.id_text id) (public_key_kind k)) [
        | Opened.missing ↦ append_key now [] r
        | Opened.not_a_directory ↦ (r, err not_writable)
        | opened folder ↦ (r, err not_writable)
        | opened (file f) ↦ elim (find_public_key_in k (raw_lines f.content)) [
          | err e ↦ (r, err e)
          | ok true ↦ (r, ok tt)
          | ok false ↦
              if are_short (raw_lines f.content)
              then append_key now f.content r
              else (r, err unknown_offset)
        ]
      ]
    ]

    abbrev pub without : Bytes → Store → Store
    without kind r = record r { storage = remove_file r.storage flow (c.id_text id) kind }

    -- `deletePublicKey`: the buffer file is gone in the end, whatever happens.
    unfoldable pub delete_public_key : ℕ → Action (Unit {0})
    unfolding preserved
    delete_public_key now r =
        let buffer = public_key_kind k ++ codes "~" in
        elim (open_read r.storage flow (c.id_text id) (public_key_kind k)) [
          | Opened.missing ↦ (r, ok tt)
          | Opened.not_a_directory ↦ (r, err not_a_directory)
          | opened folder ↦
              if file_free (lookup r.storage flow (c.id_text id) buffer)
              then (without (public_key_kind k) (without buffer r), ok tt)
              else (r, err not_writable)
          | opened (file f) ↦
              if file_free (lookup r.storage flow (c.id_text id) buffer)
              then elim (preserved k (raw_lines f.content)) [
                | err e ↦ (without buffer r, err e)
                | ok out ↦
                    if is_empty out
                    then (without (public_key_kind k) (without buffer r), ok tt)
                    else write_file c flow id (public_key_kind k)
                        (record { content = out; changed_at = now }) (without buffer r)
              ]
              else (r, err not_writable)
        ]

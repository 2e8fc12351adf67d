-- ===== src/Lib.antt =====
-- Bifröst (Bifroest) is an SSH server that authorizes users and lets them into environments. This
-- library models these of its parts: how it keeps the local users and groups of a Unix machine (the
-- package pkg/user, with the files passwd, group and shadow, their codec, and the repository over
-- them), and how it keeps the sessions of its users (the package pkg/session, with the repository
-- that has each session in a directory of files, and the connections that use a session), how its
-- housekeeper ends them (pkg/service), how it keeps passwords and authorized keys (pkg/crypto), and
-- how it decides who is let in and to which session (pkg/authorization).
--
-- Prelude passes on the names that all modules share: native numbers, bytes (a list of numbers),
-- Boolean tests, and `Result` for Go's `(value, error)`; Actions has code that changes a state and may
-- fail, Maps directories as association lists, Segments the parts of a list.
--
-- User is pkg/user:
--   Errors, Names, Columns: pkg/user/etc-unix.go, the errors, `validateUserName` and its kin, and the
--     decimal columns. `bytes.Split`, `bytes.Join` and `strconv` are written out.
--   Value: `etcColonEntryValue` of pkg/user/etc-colon-entry.go, the interface of an entry, with the
--     laws that the three kinds of entries fill.
--   Passwd, Group, Shadow: pkg/user/etc-passwd.go, etc-group.go and etc-shadow.go, each with
--     `validate`, `decode`, `encode`; Group with the members, Shadow with `validatePassword`, whose
--     crypt library and day of today are parameters.
--   Colon: `etcColonEntry` and `etcColonEntries`, lines and whole files.
--   Requirement: pkg/user/requirement_unix.go and group-requirement_unix.go.
--   Repository: pkg/user/etc-colon-repository.go with its handles. State has the fields of
--     `EtcColonRepository`. As lists and indexes share the entries and change them in place, entries
--     stand in heaps and lists hold addresses. Load is `openAndLoad`, `rebuildIndexes` and `save`,
--     Lookup the lookups and the choice of ids, Options the options, HomeDir the home directories and
--     `killAllOf`, Groups `ensureGroup` and `EnsureGroup`, Accounts the entries that
--     `Ensure` makes and changes, Ensure `Ensure`, and Delete the deletions.
--     An operation is an `Action`: from a repository to a repository and a result, where what was
--     changed before an error stays changed.
--   Shared: `SharedRepositoryProvider` of pkg/user/repository.go, a counter of handles.
--
-- Session is pkg/session:
--   State, Predicates: state.go and predicates.go.
--   Files: the storage of fs-repository.go, with `openRead`, `openWrite` and what is removed.
--   Store: the state of `FsRepository`; what a session is in memory (`fs`, `fsInfo`) is a copy, which
--     the files may outrun. encoding/json, the texts of a UUID and base58 are the parameter `Codec`,
--     with the laws `CodecLaws` where a theorem needs them; for encoding/json they hold where the texts
--     of a remote are valid UTF-8.
--   Fs: what is done with one session, of fs.go, fs-info.go and fs-lastaccessed.go.
--   Repository: `Create`, `findBy`, `disposeBy`, `deleteBy` and the cleaning of fs-repository.go.
--   Iterate: `iterateFlows`, `iterateFlowDirs`, `FindAll`, `FindByAccessToken` and `FindByPublicKey`, with
--     the names of flows of pkg/configuration/flow-key.go. A search keeps something beside the repository: the
--     state of its consumer, or what it has found.
--   PublicKeys: the files of public keys of a session. Base64, `ssh.ParsePublicKey` and the hash are
--     the parameter `KeyCodec`; a key is its type and its marshalled bytes.
--   Compare: `isReaderEqualToBytes` of common.go.
--   Interceptors: the connections of fs-connection-interceptor.go. The steps of a goroutine between
--     which others may run are steps of a relation, in which any order of them is a path.
-- Service is pkg/service: Handshake has the handlers of service-authorization.go over any authorizer,
-- with the context of a connection as state, and Housekeeper has what pkg/service/housekeeper.go does
-- with each session that `FindAll` gives it, over any authorizer; what finds, disposes and closes an
-- environment, and what disposes an authorization, are parameters that may change the repository.
--
-- Crypto is pkg/crypto: Passwords has password-type.go, password-bcrypt.go, password.go and
-- password-file.go, with the bcrypt library as a parameter; KeyOptions and AuthorizedKeys have
-- authorized-keys-option-type.go, authorized-keys-option.go, authorized-keys.go and
-- authorized-keys-file.go, with `strconv.Quote`, `strconv.Unquote` and the decoding of a key as
-- parameters. The loop over the options of a line is a recursion on what is left of the line.
-- Restrictions has the restrictions of keys (rsa-restriction.go and its three kin), and `KeyAllowed` of
-- pkg/configuration/keys.go; a key is its kind and its number of bits there.
--
-- Authorization is pkg/authorization. Request has the requests, the answers and the interface of an
-- authorizer, Simple, Htpasswd and Unchecked (the flow `none`) fill it over the repository of sessions
-- (Session), Facade asks several of them in their order and fills it too. Entry is
-- pkg/configuration/authorization-simple-entry.go. What a prompt is answered depends on the flow that
-- asks; the acceptance of an environment, JSON, regular expressions, the folding of cases and the
-- htpasswd library are parameters.
--
-- The time `now` stands still while an operation runs, and is a parameter of it; times and durations
-- are in milliseconds. Where the interceptors are not concerned, an operation runs without others. Of
-- the calls to the system those fail that must fail on the tree of files: what is missing is not
-- opened, nothing is made below a file. A flow has another name than . and .., so that each has a
-- directory of its own; that of a session has the text of its id as name.
--
-- The files of the system are, for pkg/user, their bytes, in fields of the repository. What else is done to the
-- system is a list of effects in their order; what the system answers is a parameter (`System`).
-- A panic on a nil pointer is the error `nil_dereference`.
--
-- Bounds: a uint32 is a number below 2 ^ 32, and sums are taken modulo 2 ^ 32 where the code can
-- exceed it. The digits of a number have fuel 20, enough for every uint64. A scanner of Go's bufio
-- reads a text into a buffer of 4096 bytes; `stays_in_place` says of a text that the slices into that
-- buffer keep their bytes, and reading another text has no result (`moved_buffer`). The loop of
-- `isReaderEqualToBytes` has the length of the bytes as fuel, of which each round takes one or more.
--
-- Not modelled: mutexes but for those of the interceptors, file locks, the watcher of the files and its
-- timer, logging, failures of reading and writing files that the tree of files does not cause, and the
-- String, Clone and template methods; of pkg/session the facade and the deadlines of connections. The
-- rest of the service, the authorization by PAM and OIDC, and the other packages (environments, the
-- rest of the configuration and of the cryptography, network) are not modelled.
pub mod Prelude
pub mod User
pub mod Session
pub mod Service
pub mod Crypto
pub mod Authorization

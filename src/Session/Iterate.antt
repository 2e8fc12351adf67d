-- ===== src/Session/Iterate.antt =====
-- pkg/session/fs-repository.go: walking through all sessions, and searching them; the names of flows
-- are those of pkg/configuration/flow-key.go.
pub mod Candidates
pub mod Flat
pub mod Directory
pub mod Grown
pub mod Passed
pub mod Again
pub mod Searches
use bifroest.Prelude.{
  ℕ, Bool, true, false, not, ◌&&◌, ◌||◌, List, [], ◌∷◌, Option, none, some, Bytes, is_empty, leb,
  ◌==◌, if◌then◌else◌, Result, ok, err,
}
use bifroest.Prelude.Actions
use bifroest.Prelude.Actions.{pure, continue, ◌>>=◌, ◌>>◌}
use bifroest.Prelude.Maps.{Named, drop}
use bifroest.Session.Files
use bifroest.Session.Files.{
  Entry, file, folder, FlowEntry, plain_file, directory, RootEntry, root_file, flow_directory,
  Storage, flow_dir, set_flow_dir, Opened, opened, open_read,
}
use bifroest.Session.Store
use bifroest.Session.Store.{
  Fs, Store, SessionError, no_such_session, not_a_directory, cannot_decode, Codec,
  fs_file_access_token,
}
use bifroest.Session.PublicKeys.{Key, KeyCodec, has_public_key}
use bifroest.Session.Compare.{is_reader_equal_to_bytes}
use bifroest.Session.Repository.{FindOpts, is_auto_clean_up_allowed, find_by}

abbrev pub is_flow_char : ℕ → Bool
is_flow_char b =
    (leb b'a' b && leb b b'z')
    || (leb b'A' b && leb b b'Z')
    || (leb b'0' b && leb b b'9')
    || (b == b'-')
    || (b == b'.')

abbrev pub all_flow_chars : Bytes → Bool
all_flow_chars [] = true
all_flow_chars (b ∷ bs) = is_flow_char b && all_flow_chars bs

-- `FlowName.Validate`
unfoldable pub is_flow_name : Bytes → Bool
is_flow_name name = not (is_empty name) && all_flow_chars name

-- What is done goes along with something that is kept beside the repository.
abbrev pub Walk : Type 0 → Type 0 → Type 0
Walk X = Actions.Action (Store × X) SessionError

-- One after the other, until one fails or says that it is enough.
unfoldable pub iterate : {X A : Type 0} → List A → (A → Walk X Bool) → Walk X (Unit {0})
iterate [] visit = pure tt
iterate (a ∷ as') visit =
    let rest = iterate as' visit in
    visit a >>= λ can_continue. if can_continue then rest else pure tt

module _ (c : Codec) (opts : FindOpts) {X : Type 0} where
  -- `doFindAutoCleanRootContentIfAllowed`
  unfoldable pub clean_root_content : Bytes → Walk X Bool
  clean_root_content name (r, x) =
      if is_auto_clean_up_allowed opts
      then ((record r { storage = drop name r.storage }, x), ok true)
      else ((r, x), ok true)

  -- `doFindAutoCleanFlowContentIfAllowed`
  unfoldable pub clean_flow_content : Bytes → Bytes → Walk X Bool
  clean_flow_content flow name (r, x) =
      if is_auto_clean_up_allowed opts
      then (
        (
          record r { storage = set_flow_dir r.storage flow (drop name (flow_dir r.storage flow)) },
          x,
        ),
        ok true,
      )
      else ((r, x), ok true)

  unfoldable pub visit_root_entry : (Bytes → Walk X Bool) → Bytes × RootEntry → Walk X Bool
  unfolding clean_root_content
  visit_root_entry consumer (name, root_file) = clean_root_content name
  visit_root_entry consumer (name, flow_directory d) =
      if is_flow_name name then consumer name else clean_root_content name

  -- `iterateFlows`; a storage that is not there is empty.
  unfoldable pub iterate_flows : (Bytes → Walk X Bool) → Walk X (Unit {0})
  unfolding iterate visit_root_entry
  iterate_flows consumer (r, x) = iterate r.storage (visit_root_entry consumer) (r, x)

  unfoldable pub visit_flow_entry : Bytes → (ℕ → Walk X Bool) → Bytes × FlowEntry → Walk X Bool
  unfolding clean_flow_content
  visit_flow_entry flow consumer (name, plain_file) = clean_flow_content flow name
  visit_flow_entry flow consumer (name, directory d) = elim (c.parse_id name) [
    | none ↦ clean_flow_content flow name
    | some id ↦ consumer id
  ]

  -- The directory of a flow that was empty is removed.
  unfoldable pub clean_orphan : Bytes → Named FlowEntry → Walk X (Unit {0})
  clean_orphan flow entries (r, x) =
      if is_empty entries && is_auto_clean_up_allowed opts
      then ((record r { storage = drop flow r.storage }, x), ok tt)
      else ((r, x), ok tt)

  -- `iterateFlowDirs` of a flow whose directory `iterateFlows` has seen.
  unfoldable pub iterate_flow_dirs : Bytes → (ℕ → Walk X Bool) → Walk X (Unit {0})
  unfolding iterate visit_flow_entry clean_orphan
  iterate_flow_dirs flow consumer (r, x) =
      (iterate (flow_dir r.storage flow) (visit_flow_entry flow consumer)
          >> clean_orphan flow (flow_dir r.storage flow))
        (r, x)

  -- The sessions of one flow; afterwards what is kept says whether there is more to do.
  unfoldable pub visit_flow : (X → Bool) → (Bytes → ℕ → Walk X Bool) → Bytes → Walk X Bool
  unfolding iterate_flow_dirs
  visit_flow go_on visit flow = iterate_flow_dirs flow (visit flow) >> λ s. (s, ok (go_on s.1))

  -- Both loops.
  unfoldable pub iterate_all : (X → Bool) → (Bytes → ℕ → Walk X Bool) → Walk X (Unit {0})
  unfolding iterate_flows visit_flow
  iterate_all go_on visit = iterate_flows (visit_flow go_on visit)

-- `result == nil`
abbrev pub is_nothing : Option Fs → Bool
is_nothing none = true
is_nothing (some sess) = false

-- The end of a search for one session.
abbrev pub first_result : (Store × Option Fs) × Store.Result (Unit {0}) → Store × Store.Result Fs
first_result ((r, found), err e) = (r, err e)
first_result ((r, none), ok _) = (r, err no_such_session)
first_result ((r, some sess), ok _) = (r, ok sess)

module _ (c : Codec) (now : ℕ) (opts : FindOpts) where
  -- What `FindAll` does with a candidate; the flag is its `canContinue`.
  unfoldable pub consume :
      {X : Type 0} → (Fs → X → X × Store.Result Bool) → Bytes → ℕ → Walk (X × Bool) Bool
  unfolding find_by
  consume consumer flow id (r, (x, can_continue)) =
      let (r', candidate) = find_by c now opts true flow id r in
      elim candidate [
        | err no_such_session ↦ ((r', (x, can_continue)), ok true)
        | err e ↦ ((r', (x, can_continue)), err e)
        | ok sess ↦
            let (x', out) = consumer sess x in
            elim out [ err e ↦ ((r', (x', false)), err e) | ok b ↦ ((r', (x', b)), ok b) ]
      ]

  -- `FindAll`
  unfoldable pub find_all : {X : Type 0} → (Fs → X → X × Store.Result Bool) → Walk X (Unit {0})
  unfolding iterate_all consume
  find_all consumer (r, x) =
      let (s, out) = iterate_all c opts (λ k. k.1) (consume consumer) (r, (x, true)) in
      ((s.0, s.1.0), out)

  -- `hasAccessToken`
  unfoldable pub has_access_token : Store → Bytes → ℕ → Bytes → Store.Result Bool
  unfolding is_reader_equal_to_bytes
  has_access_token r flow id t =
      elim (open_read r.storage flow (c.id_text id) fs_file_access_token) [
        | Opened.missing ↦ ok false
        | Opened.not_a_directory ↦ err not_a_directory
        | opened folder ↦ if is_empty t then ok true else err cannot_decode
        | opened (file f) ↦ ok (is_reader_equal_to_bytes f.content t)
      ]

  -- What `FindByAccessToken` and `FindByPublicKey` do with a candidate, by a test of their own.
  unfoldable pub take_by :
      (Store → Bytes → ℕ → Store.Result Bool) → Bytes → ℕ → Walk (Option Fs) Bool
  unfolding find_by
  take_by has flow id (r, found) = elim (has r flow id) [
    | err e ↦ ((r, found), err e)
    | ok b ↦
        if b
        then (let (r', candidate) = find_by c now opts true flow id r in
            elim candidate [
              | err no_such_session ↦ ((r', found), ok true)
              | err e ↦ ((r', found), err e)
              | ok sess ↦ ((r', some sess), ok false)
            ])
        else ((r, found), ok true)
  ]

  -- `FindByAccessToken`
  unfoldable pub find_by_access_token : Bytes → Store.Action Fs
  unfolding iterate_all take_by has_access_token
  find_by_access_token t r = first_result (
      iterate_all c opts is_nothing (take_by (λ r' flow id. has_access_token r' flow id t))
        (r, none))

  -- `FindByPublicKey`
  unfoldable pub find_by_public_key : KeyCodec → Key → Store.Action Fs
  unfolding iterate_all take_by has_public_key
  find_by_public_key kc k r = first_result (
      iterate_all c opts is_nothing (take_by (λ r' flow id. has_public_key kc c flow id k r'))
        (r, none))

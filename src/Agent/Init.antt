-- ===== src/Agent/Init.antt =====
-- src/agent/init.rs: where the init container takes the source from, and how. The environment, git,
-- the network and the file system are arguments.
pub mod Handoff
pub mod Paths
pub mod Confined
use pulumi_rs_kube_operator.Base.{
  ℕ, Bool, true, false, ◌&&◌, ◌||◌, not, Option, none, some, List, [], ◌∷◌, ◌++◌, Result, ok, err,
  Text, text, length, leb, contains, starts_with, if◌then◌else◌,
}

pub data InitError : Type 0 where
  io git fetch : (detail : Text) → InitError
  invalid_subdir : (subdir : Text) → InitError

pub data InitSource : Type 0 where
  git_source : (url : Text) (revision dir : Option Text) → InitSource
  flux_source : (url : Text) (digest dir : Option Text) → InitSource
  program_source : (url : Text) → InitSource
  local_source : InitSource

-- `std::env::var(name).ok()`
unfoldable pub determine_source_from_env : (get_env : Text → Option Text) → InitSource
determine_source_from_env get_env = elim (get_env (text "GIT_URL")) [
  | some url ↦ git_source url (get_env (text "GIT_REVISION")) (get_env (text "GIT_DIR"))
  | none ↦ elim (get_env (text "FLUX_URL")) [
    | some url ↦ flux_source url (get_env (text "FLUX_DIGEST")) (get_env (text "FLUX_DIR"))
    | none ↦ elim (get_env (text "PROGRAM_URL")) [
      | some url ↦ program_source url
      | none ↦ local_source
    ]
  ]
]

unfoldable pub branch_args : Option Text → List Text
branch_args none = []
branch_args (some rev) = text "--branch" ∷ rev ∷ []

unfoldable pub clone_args : (target_dir url : Text) → Option Text → List Text
unfolding branch_args
clone_args target_dir url revision =
    (text "clone" ∷ text "--depth" ∷ text "1" ∷ [])
    ++ branch_args revision
    ++ (url ∷ target_dir ∷ [])

-- `char::is_ascii_hexdigit`
unfoldable pub is_hexdigit : ℕ → Bool
is_hexdigit c =
    (leb b'0' c && leb c b'9') || (leb b'a' c && leb c b'f') || (leb b'A' c && leb c b'F')

unfoldable pub all_hex : Text → Bool
unfolding is_hexdigit
all_hex [] = true
all_hex (c ∷ cs) = is_hexdigit c && all_hex cs

-- A revision that looks like a commit, not a branch.
unfoldable pub is_commit : Text → Bool
unfolding all_hex
is_commit rev = leb 7 (length rev) && all_hex rev

-- What a run of git gives: it cannot be run, or it ends with success or with an error text.
pub data GitOutput : Type 0 where
  git_unrun : (message : Text) → GitOutput
  git_success : GitOutput
  git_failure : (stderr : Text) → GitOutput

module _ (git_run : List Text → GitOutput) where
  unfoldable pub checkout_commit : Text → Result InitError (Unit {0})
  checkout_commit rev = elim (git_run (text "checkout" ∷ rev ∷ [])) [
    | git_unrun m ↦ err (git (text "failed to run git checkout: " ++ m))
    | git_failure e ↦ err (git (text "git checkout " ++ rev ++ text " failed: " ++ e))
    | git_success ↦ ok tt
  ]

  -- After the clone: a commit is fetched, and checked out if that succeeded.
  unfoldable pub fetch_commit : Text → Result InitError (Unit {0})
  unfolding checkout_commit
  fetch_commit rev = elim (git_run (text "fetch" ∷ text "origin" ∷ rev ∷ [])) [
    | git_unrun m ↦ err (git (text "failed to fetch commit: " ++ m))
    | git_failure e ↦ ok tt
    | git_success ↦ checkout_commit rev
  ]

  unfoldable pub after_clone : Option Text → Result InitError (Unit {0})
  unfolding fetch_commit is_commit
  after_clone none = ok tt
  after_clone (some rev) = if is_commit rev then fetch_commit rev else ok tt

  unfoldable pub clone_git_repo :
      (target_dir url : Text) → Option Text → Result InitError (Unit {0})
  unfolding clone_args after_clone
  clone_git_repo target_dir url revision = elim (git_run (clone_args target_dir url revision)) [
    | git_unrun m ↦ err (git (text "failed to run git clone: " ++ m))
    | git_failure e ↦ err (git (text "git clone failed: " ++ e))
    | git_success ↦ after_clone revision
  ]

-- The directory that the workspace becomes a link to.
unfoldable pub link_source : (source_dir : Text) → Option Text → Result InitError Text
link_source source_dir none = ok source_dir
link_source source_dir (some []) = ok source_dir
link_source source_dir (some (c ∷ d)) =
    if contains (c ∷ d) (text "..") || starts_with (text "/") (c ∷ d)
    then err (invalid_subdir (c ∷ d))
    else ok (source_dir ++ text "/" ++ c ∷ d)

-- The bytes of an arrow between spaces.
abbrev pub arrow : Text
arrow = 32 ∷ 0xE2 ∷ 0x86 ∷ 0x92 ∷ 32 ∷ []

-- `symlink_subdir`, where `symlink` says why the link cannot be made, if so.
unfoldable pub symlink_subdir :
    (symlink : (source workspace_dir : Text) → Option Text) (source_dir workspace_dir : Text)
    → Option Text
    → Result InitError Text
unfolding link_source
symlink_subdir symlink source_dir workspace_dir subdir = elim (link_source source_dir subdir) [
  | err e ↦ err e
  | ok source ↦ elim (symlink source workspace_dir) [
    | none ↦ ok source
    | some e ↦ err (
        io (text "failed to create symlink " ++ workspace_dir ++ arrow ++ source ++ text ": " ++ e))
  ]
]

-- What comes of fetching an archive: the directory cannot be made, the request or its body fails, the
-- answer is no success, the archive cannot be unpacked, or it is there.
pub data Download : Type 0 where
  dir_unmade unfetched unread unextracted : (message : Text) → Download
  answered : (status : Text) → Download
  extracted : Download

unfoldable pub fetch_and_extract : (label : Text) → Download → Result InitError (Unit {0})
fetch_and_extract label (dir_unmade m) = err (io (text "failed to create target dir: " ++ m))
fetch_and_extract label (unfetched m) =
    err (fetch (text "failed to fetch " ++ label ++ text ": " ++ m))
fetch_and_extract label (answered status) = err (fetch (label ++ text " fetch returned " ++ status))
fetch_and_extract label (unread m) =
    err (fetch (text "failed to read " ++ label ++ text " body: " ++ m))
fetch_and_extract label (unextracted m) =
    err (fetch (text "failed to extract " ++ label ++ text ": " ++ m))
fetch_and_extract label extracted = ok tt

module _ (git_run : List Text → GitOutput) (download : (url : Text) → Download)
    (symlink : (source workspace_dir : Text) → Option Text) (source_dir workspace_dir : Text) where
  -- The link, once the source is there.
  unfoldable pub link_after :
      Result InitError (Unit {0}) → Option Text → Result InitError (Option Text)
  unfolding symlink_subdir
  link_after (err e) dir = err e
  link_after (ok u) dir = elim (symlink_subdir symlink source_dir workspace_dir dir) [
    | err e ↦ err e
    | ok source ↦ ok (some source)
  ]

  unfoldable pub fetch_source : InitSource → Result InitError (Option Text)
  unfolding clone_git_repo fetch_and_extract link_after
  fetch_source (git_source url revision dir) =
      link_after (clone_git_repo git_run source_dir url revision) dir
  fetch_source (flux_source url digest dir) =
      link_after (fetch_and_extract (text "artifact") (download url)) dir
  fetch_source (program_source url) =
      link_after (fetch_and_extract (text "program") (download url)) none
  fetch_source local_source = ok none

  -- `initialize_workspace`; it gives what the workspace has become a link to, if anything. `made` says
  -- why the directory of the workspace cannot be made, if so.
  unfoldable pub initialize_workspace :
      (made : Option Text) (get_env : Text → Option Text) → Result InitError (Option Text)
  unfolding fetch_source determine_source_from_env
  initialize_workspace none get_env = fetch_source (determine_source_from_env get_env)
  initialize_workspace (some m) get_env = err (io (text "failed to create workspace dir: " ++ m))

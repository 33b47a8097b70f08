-- ===== src/Agent/Backend.antt =====
-- src/agent/server.rs, `run_server`: the directory of a backend in files, before the server starts.
pub mod Started
use pulumi_rs_kube_operator.Base.{
  Bool, Option, none, some, List, [], ◌∷◌, ◌++◌, any, Result, ok, err, Text, text, starts_with,
  strip_prefix, if◌then◌else◌,
}
use pulumi_rs_kube_operator.Errors.{RunError, io, addr_parse, generic}

abbrev pub schemes : List Text
schemes = text "file://" ∷ text "gs://" ∷ text "s3://" ∷ text "azblob://" ∷ text "https://" ∷ []

unfoldable pub allowed_scheme : Text → Bool
allowed_scheme url = any (λ s. starts_with s url) schemes

-- `url.split("://").next()`: the text before the first mark, or all of it.
unfoldable pub scheme_of : Text → Text
scheme_of [] = []
scheme_of (c ∷ cs) = if starts_with (text "://") (c ∷ cs) then [] else c ∷ scheme_of cs

unfoldable pub validate_backend : Text → Result RunError (Unit {0})
unfolding allowed_scheme scheme_of
validate_backend url =
    if allowed_scheme url
    then ok tt
    else err (generic (text "unsupported backend scheme in PULUMI_BACKEND_URL: " ++ scheme_of url))

module _ (exists : Text → Bool) (create_dir_all : Text → Option Text) where
  -- The directory of a backend in files is made if it is not there; `create_dir_all` says why it cannot
  -- be, if so.
  unfoldable pub state_dir : Option Text → Result RunError (Unit {0})
  state_dir none = ok tt
  state_dir (some path) =
      if exists path
      then ok tt
      else elim (create_dir_all path) [ none ↦ ok tt | some m ↦ err (io m) ]

  unfoldable pub prepare_backend : (backend_url : Option Text) → Result RunError (Unit {0})
  unfolding validate_backend state_dir
  prepare_backend none = ok tt
  prepare_backend (some url) = elim (validate_backend url) [
    | err e ↦ err e
    | ok u ↦ state_dir (strip_prefix (text "file://") url)
  ]

  -- `run_server` up to the server: the address that it listens at. `parse_address` is that of the
  -- library, with its error.
  unfoldable pub run_server :
      {Address : Type 0} (parse_address : Text → Result Text Address) (backend_url : Option Text)
      (listen_address : Text)
      → Result RunError Address
  unfolding prepare_backend
  run_server parse_address backend_url listen_address = elim (prepare_backend backend_url) [
    | err e ↦ err e
    | ok u ↦ elim (parse_address listen_address) [ ok a ↦ ok a | err m ↦ err (addr_parse m) ]
  ]

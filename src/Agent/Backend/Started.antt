-- ===== src/Agent/Backend/Started.antt =====
-- src/agent/server.rs, `run_server`: with which backends the server starts.
use pulumi_rs_kube_operator.Base.{
  Bool, true, Option, none, some, Result, ok, Text, text, strip_prefix, ◌≡◌, arith, ◌⊎◌, Bool-cases,
  Option-cases, Result-cases, inl, inr,
}
use pulumi_rs_kube_operator.Agent.Backend.{
  allowed_scheme, validate_backend, state_dir, prepare_backend, run_server,
}

-- No backend is named, or one with a scheme that is allowed, whose directory is there or could be made
-- if it is one of files.
pub data Prepared (exists : Text → Bool) (create_dir_all : Text → Option Text)
    : Option Text → Type 0 where
  unset : Prepared exists create_dir_all none
  elsewhere :
      (url : Text)
      → allowed_scheme url ≡ true
      → strip_prefix (text "file://") url ≡ none
      → Prepared exists create_dir_all (some url)
  in_files :
      (url path : Text)
      → strip_prefix (text "file://") url ≡ some path
      → (exists path ≡ true) ⊎ (create_dir_all path ≡ none)
      → Prepared exists create_dir_all (some url)

module _ (exists : Text → Bool) (create_dir_all : Text → Option Text) where
  prepare_backend-Prepared :
      (backend_url : Option Text)
      → prepare_backend exists create_dir_all backend_url ≡ ok tt
      → Prepared exists create_dir_all backend_url
  unfolding prepare_backend validate_backend state_dir
  prepare_backend-Prepared none e = unset
  prepare_backend-Prepared (some url) e = elim (Bool-cases (allowed_scheme url)) [
    | inr n ↦ let e' = rw (prepare_backend, validate_backend, n) at e in absurd (ground arith)
    | inl a ↦ elim (Option-cases (strip_prefix (text "file://") url)) [
      | inl p ↦ elsewhere url a p
      | inr (path, p) ↦
          let e' = rw (prepare_backend, validate_backend, a, p) at e in
          in_files url path p (made path e')
    ]
  ]
    where
      made :
          (path : Text)
          → state_dir exists create_dir_all (some path) ≡ ok tt
          → (exists path ≡ true) ⊎ (create_dir_all path ≡ none)
      made path e = elim (Bool-cases (exists path)) [
        | inl x ↦ inl x
        | inr n ↦ elim (Option-cases (create_dir_all path)) [
          | inl c ↦ inr c
          | inr (m, c) ↦ let e' = rw (n, c) at e in absurd (ground arith)
        ]
      ]

  -- The agent's server starts only without a backend, or with one of an allowed scheme, whose directory
  -- is there or was made if it is one of files.
  pub run_server-Prepared :
      {Address : Type 0} (parse_address : Text → Result Text Address) (backend_url : Option Text)
      (listen_address : Text) {address : Address}
      → run_server exists create_dir_all parse_address backend_url listen_address ≡ ok address
      → Prepared exists create_dir_all backend_url
  unfolding run_server
  run_server-Prepared parse_address backend_url listen_address e =
      elim (Result-cases (prepare_backend exists create_dir_all backend_url)) [
        | inl (u, p) ↦ prepare_backend-Prepared backend_url p
        | inr (x, p) ↦ let e' = rw (run_server, p) at e in absurd (ground arith)
      ]

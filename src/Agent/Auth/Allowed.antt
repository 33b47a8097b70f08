-- ===== src/Agent/Auth/Allowed.antt =====
-- src/agent/auth.rs, `authenticate`: who may call the agent.
use pulumi_rs_kube_operator.Base.{
  true, text, Option, none, some, or_else, List, [], Text, ok, ◌≡◌, ◌↔◌, refl, arith, Bool-cases,
  Option-cases, Result-cases, inl, inr,
}
use pulumi_rs_kube_operator.Agent.Auth.{
  allow, AccessReview, User, ReviewStatus, Reviews, identity_of, extract_identity, access_request,
  check_access, authenticate,
}

-- May this user `use` the subresource `rpc` of this workspace?
abbrev pub use_of_rpc : (username namespace workspace : Text) → AccessReview
use_of_rpc username namespace workspace = record {
  user = username;
  namespace = namespace;
  verb = text "use";
  group = text "auto.pulumi.com";
  resource = text "workspaces";
  subresource = text "rpc";
  name = workspace;
}

-- The token was reviewed and belongs to a user, and the user may use the `rpc` of the workspace.
pub record Allowed (reviews : Reviews) (token : Text) (audiences : List Text)
    (namespace workspace uid username : Text) : Type 0 where
  pub status : ReviewStatus
  pub user : User
  pub reviewed : reviews.token_review token audiences ≡ ok (some status)
  pub authenticated : status.authenticated ≡ some true
  pub has_user : status.user ≡ some user
  pub is_uid : uid ≡ or_else user.uid []
  pub is_username : username ≡ or_else user.username []
  pub granted : reviews.access_review (use_of_rpc username namespace workspace) ≡ ok (some true)

extract_identity_sound :
    (s : Option ReviewStatus) (uid username : Text)
    → extract_identity s ≡ some (uid, username)
    → (status : ReviewStatus) × (user : User) × (s ≡ some status)
      × (status.authenticated ≡ some true)
      × (status.user ≡ some user)
      × (uid ≡ or_else user.uid [])
      × (username ≡ or_else user.username [])
unfolding extract_identity identity_of
extract_identity_sound none uid username e = absurd (ground arith)
extract_identity_sound (some status) uid username e = elim (Option-cases status.user) [
  | inl n ↦ absurd (ground arith)
  | inr (user, u) ↦ (status, user, refl, ground arith, u, ground arith, ground arith)
]

check_access_sound :
    (reviews : Reviews) (username namespace workspace : Text)
    → check_access reviews username namespace workspace ≡ true
    → reviews.access_review (use_of_rpc username namespace workspace) ≡ ok (some true)
unfolding check_access access_request
check_access_sound reviews username namespace workspace e =
    elim (Result-cases (reviews.access_review (use_of_rpc username namespace workspace))) [
      | inl (none, f) ↦ let e' = rw (check_access, f) at e in absurd (ground arith)
      | inl (some b, f) ↦ let e' = rw (check_access, f) at e in ground arith
      | inr (x, f) ↦ let e' = rw (check_access, f) at e in absurd (ground arith)
    ]

module _ (reviews : Reviews) (token : Text) (audiences : List Text)
    (namespace workspace : Text) where
  authenticate_sound :
      (uid username : Text)
      → authenticate reviews token audiences namespace workspace ≡ allow uid username
      → Allowed reviews token audiences namespace workspace uid username
  unfolding authenticate
  authenticate_sound uid username e = elim (Result-cases (reviews.token_review token audiences)) [
    | inr (x, f) ↦ let e' = rw (authenticate, f) at e in absurd (ground arith)
    | inl (s, f) ↦ elim (Option-cases (extract_identity s)) [
      | inl n ↦ let e' = rw (authenticate, f, n) at e in absurd (ground arith)
      | inr ((u, n), i) ↦ elim (Bool-cases (check_access reviews n namespace workspace)) [
        | inr c ↦ let e' = rw (authenticate, f, i, c) at e in absurd (ground arith)
        | inl c ↦
            let e' = rw (authenticate, f, i, c) at e in
            let (status, user, same, auth, has, is_uid, is_name) = extract_identity_sound s u n i in
            record {
              status = status;
              user = user;
              reviewed = rw same at f;
              authenticated = auth;
              has_user = has;
              is_uid = ground arith;
              is_username = ground arith;
              granted =
                  let g = check_access_sound reviews n namespace workspace c in
                  let q : n ≡ username = ground arith in rw q at g;
            }
      ]
    ]
  ]

  authenticate_complete :
      (uid username : Text)
      → Allowed reviews token audiences namespace workspace uid username
      → authenticate reviews token audiences namespace workspace ≡ allow uid username
  unfolding authenticate extract_identity identity_of check_access access_request
  authenticate_complete uid username a =
      rw
        (
          authenticate,
          a.reviewed,
          extract_identity,
          a.authenticated,
          a.has_user,
          check_access,
          ← a.is_username,
          a.granted,
          a.is_uid,
        )
        refl

  -- A call is allowed, under an identity, exactly if the token review says that the token is that of a
  -- user with this identity, and the access review grants the user the use of the workspace's `rpc`;
  -- an error of either review denies it.
  pub authenticate_iff :
      (uid username : Text)
      → authenticate reviews token audiences namespace workspace ≡ allow uid username
        ↔ Allowed reviews token audiences namespace workspace uid username
  authenticate_iff uid username =
      (authenticate_sound uid username, authenticate_complete uid username)

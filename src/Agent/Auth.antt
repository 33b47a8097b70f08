-- ===== src/Agent/Auth.antt =====
-- src/agent/auth.rs: whether the bearer of a token may call the agent of a workspace. The two reviews
-- are answers of the API server.
pub mod Allowed
use pulumi_rs_kube_operator.Base.{
  Bool, false, Option, none, some, or_else, List, [], Text, text, ok, err, if◌then◌else◌,
}
use pulumi_rs_kube_operator.Operator.Effects.{Kube}

pub data AuthDecision : Type 0 where
  allow : (uid name : Text) → AuthDecision
  deny : (reason : Text) → AuthDecision

pub record User : Type 0 where
  pub uid : Option Text
  pub username : Option Text

-- The status of a `TokenReview`.
pub record ReviewStatus : Type 0 where
  pub authenticated : Option Bool
  pub user : Option User

-- What access is asked for: the verb `use` on the `rpc` of a workspace.
pub record AccessReview : Type 0 where
  pub user : Text
  pub namespace : Text
  pub verb : Text
  pub group : Text
  pub resource : Text
  pub subresource : Text
  pub name : Text

pub record Reviews : Type 0 where
  pub token_review : (token : Text) (audiences : List Text) → Kube (Option ReviewStatus)
  pub access_review : AccessReview → Kube (Option Bool)

unfoldable pub identity_of : Option User → Option (Text × Text)
identity_of none = none
identity_of (some user) = some (or_else user.uid [], or_else user.username [])

unfoldable pub extract_identity : Option ReviewStatus → Option (Text × Text)
unfolding identity_of
extract_identity none = none
extract_identity (some status) =
    if or_else status.authenticated false then identity_of status.user else none

unfoldable pub access_request : (username namespace workspace_name : Text) → AccessReview
access_request username namespace workspace_name = record {
  user = username;
  namespace = namespace;
  verb = text "use";
  group = text "auto.pulumi.com";
  resource = text "workspaces";
  subresource = text "rpc";
  name = workspace_name;
}

unfoldable pub check_access : Reviews → (username namespace workspace_name : Text) → Bool
unfolding access_request
check_access reviews username namespace workspace_name =
    elim (reviews.access_review (access_request username namespace workspace_name)) [
      | ok status ↦ or_else status false
      | err e ↦ false
    ]

unfoldable pub authenticate :
    Reviews
    → (token : Text) → (audiences : List Text) → (workspace_namespace workspace_name : Text)
    → AuthDecision
unfolding extract_identity check_access
authenticate reviews token audiences workspace_namespace workspace_name =
    elim (reviews.token_review token audiences) [
      | err e ↦ deny (text "token review failed")
      | ok status ↦ elim (extract_identity status) [
        | none ↦ deny (text "token not authenticated")
        | some (uid, username) ↦
            if check_access reviews username workspace_namespace workspace_name
            then allow uid username
            else deny (text "not authorized for workspace RPC")
      ]
    ]

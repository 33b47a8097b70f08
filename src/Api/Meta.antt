-- ===== src/Api/Meta.antt =====
-- The part of Kubernetes' object metadata that the operator uses, and its owner references
-- (src/api/owner.rs, src/core/finalizer.rs).
use pulumi_rs_kube_operator.Base.{
  Bool, Text, List, [], ◌∷◌, Option, none, some, ℤ, any, or_else, text_eq, true,
}

pub record OwnerReference : Type 0 where
  pub api_version : Text
  pub kind : Text
  pub name : Text
  pub uid : Text
  pub controller : Option Bool
  pub block_owner_deletion : Option Bool

pub record ObjectMeta : Type 0 where
  pub name : Option Text
  pub namespace : Option Text
  pub uid : Option Text
  pub generation : Option ℤ
  pub deletion_timestamp : Option Text
  pub finalizers : Option (List Text)
  pub annotations : List (Text × Text)
  pub owner_references : List OwnerReference

-- `ResourceExt::finalizers`: none is the empty list.
abbrev pub finalizers_of : ObjectMeta → List Text
finalizers_of m = or_else m.finalizers []

-- `ResourceExt::name_any`, for objects that have a name
abbrev pub name_any : ObjectMeta → Text
name_any m = or_else m.name []

-- Whether an object carries a finalizer.
unfoldable pub has_finalizer : ObjectMeta → Text → Bool
has_finalizer m name = any (λ s. text_eq s name) (finalizers_of m)

-- `annotations().get(key)`
unfoldable pub annotation : Text → List (Text × Text) → Option Text
annotation key [] = none
annotation key ((k, v) ∷ rest) = elim (text_eq k key) [ true ↦ some v | _ ↦ annotation key rest ]

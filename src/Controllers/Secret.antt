-- ===== src/Controllers/Secret.antt =====
-- src/operator/controllers/update.rs, `build_output_secret`: the Secret with the outputs of an
-- Update. A `BTreeMap` is a list that is sorted by its keys; `lossy` is `String::from_utf8_lossy`.
use pulumi_rs_kube_operator.Base.{
  Bool, true, false, List, [], ◌∷◌, ◌++◌, Text, text, text_eq, ltb, ◌==◌, if◌then◌else◌,
}
use pulumi_rs_kube_operator.Api.Meta.{OwnerReference}
use pulumi_rs_kube_operator.Controllers.Protocol.{Outputs}

-- The order of strings: by bytes, and a prefix comes first.
unfoldable pub text_lt : Text → Text → Bool
text_lt s [] = false
text_lt [] (y ∷ ys) = true
text_lt (x ∷ xs) (y ∷ ys) = if x == y then text_lt xs ys else ltb x y

abbrev pub Entries : Type 0
Entries = List (Text × Text)

-- `BTreeMap::insert`
unfoldable pub put : Text → Text → Entries → Entries
put key value [] = (key, value) ∷ []
put key value ((k, v) ∷ rest) =
    let later = put key value rest in
    if text_eq k key
    then (key, value) ∷ rest
    else if text_lt key k
    then (key, value) ∷ (k, v) ∷ rest
    else (k, v) ∷ later

-- The loop that fills the map.
unfoldable pub collect : (lossy : Text → Text) → Entries → Outputs → Entries
collect lossy entries [] = entries
collect lossy entries ((key, ov) ∷ rest) = collect lossy (put key (lossy ov.value) entries) rest

-- `parts.join(separator)`
unfoldable pub join_with : Text → List Text → Text
join_with separator [] = []
join_with separator (k ∷ []) = k
join_with separator (k ∷ l ∷ rest) = k ++ separator ++ join_with separator (l ∷ rest)

pub record Secret : Type 0 where
  pub name : Text
  pub namespace : Text
  pub annotations : Entries
  pub owner_references : List OwnerReference
  pub immutable : Bool
  pub string_data : Entries

abbrev pub secret_outputs_ann : Text
secret_outputs_ann = text "pulumi.com/secrets"

unfoldable pub build_output_secret :
    (lossy : Text → Text) (update_name ns : Text) → Outputs → List Text → OwnerReference → Secret
build_output_secret lossy update_name ns outputs secret_keys owner_ref = record {
  name = update_name ++ text "-stack-outputs";
  namespace = ns;
  annotations = elim secret_keys [
    | [] ↦ []
    | k ∷ ks ↦ (secret_outputs_ann, join_with (text ",") (k ∷ ks)) ∷ []
  ];
  owner_references = owner_ref ∷ [];
  immutable = true;
  string_data = collect lossy [] outputs;
}

-- ===== src/Controllers/Artifact.antt =====
-- src/operator/controllers/program.rs, `build_artifact`: the archive of a Program's text, and what is
-- published of it.
use pulumi_rs_kube_operator.Base.{
  Option, none, some, List, [], ◌∷◌, ◌++◌, Result, ok, err, Text, text, ℤ, pos, decimal_int, length,
}
use pulumi_rs_kube_operator.Errors.{OperatorError, permanent, spec_invalid}
use pulumi_rs_kube_operator.Api.Program.{Program, Artifact, Configuration, Resource}
use pulumi_rs_kube_operator.Api.Json.{JsonValue}
use pulumi_rs_kube_operator.Controllers.FileServer.{Bytes}

-- What is written as a section of the document.
pub data Section : Type 0 where
  configuration_section : List (Text × Configuration) → Section
  resources_section : List (Text × Resource) → Section
  values_section : List (Text × JsonValue) → Section
  packages_section : List (Text × Text) → Section

-- What the code uses of others: serde_yaml with its type of values, the tar and gzip writers, and the
-- digest in hexadecimal digits.
pub record Toolkit : Type 1 where
  pub Yaml : Type 0
  pub to_value : Section → Option Yaml
  pub yaml_string : Text → Yaml
  pub to_string : List (Text × Yaml) → Option Text
  pub tar_gz : (filename : Text) (content : Text) → Option Bytes
  pub sha256_hex : Bytes → Text

abbrev option_map : {A B : Type 0} → (A → B) → Option A → Option B
option_map f none = none
option_map f (some a) = some (f a)

module _ (kit : Toolkit) where
  -- One optional section of the document.
  unfoldable pub add_section :
      (field key : Text)
      → Option Section
      → List (Text × kit.Yaml)
      → Result OperatorError (List (Text × kit.Yaml))
  add_section field key none doc = ok doc
  add_section field key (some section) doc = elim (kit.to_value section) [
    | none ↦ err (permanent (spec_invalid field))
    | some v ↦ ok (doc ++ (key, v) ∷ [])
  ]

  unfoldable pub then_section :
      Result OperatorError (List (Text × kit.Yaml))
      → (field key : Text) → Option Section
      → Result OperatorError (List (Text × kit.Yaml))
  unfolding add_section
  then_section (err e) field key section = err e
  then_section (ok doc) field key section = add_section field key section doc

  -- The document, whose sections stand in this order.
  unfoldable pub program_document : Program → Result OperatorError (List (Text × kit.Yaml))
  unfolding then_section
  program_document program =
      let s = program.spec in
      let doc =
        (text "runtime", kit.yaml_string (text "yaml"))
        ∷ (text "name", kit.yaml_string (text "program"))
        ∷ [] in
      let a =
        then_section (ok doc) (text "configuration") (text "config")
          (option_map configuration_section s.configuration) in
      let b =
        then_section a (text "resources") (text "resources")
          (option_map resources_section s.resources) in
      let c =
        then_section b (text "variables") (text "variables")
          (option_map values_section s.variables) in
      let d =
        then_section c (text "outputs") (text "outputs") (option_map values_section s.outputs) in
      then_section d (text "packages") (text "packages") (option_map packages_section s.packages)

  unfoldable pub serialize_program_yaml : Program → Result OperatorError Text
  unfolding program_document
  serialize_program_yaml program = elim (program_document program) [
    | err e ↦ err e
    | ok doc ↦ elim (kit.to_string doc) [
      | none ↦ err (permanent (spec_invalid (text "program")))
      | some yaml ↦ ok yaml
    ]
  ]

  unfoldable pub create_tar_gz : Text → Text → Result OperatorError Bytes
  create_tar_gz filename content = elim (kit.tar_gz filename content) [
    | none ↦ err (permanent (spec_invalid (text "program")))
    | some bytes ↦ ok bytes
  ]

-- `format!("programs/{}/{}/{}.tar.gz", ns, name, generation)`
unfoldable pub artifact_path : (ns name : Text) → (generation : ℤ) → Text
artifact_path ns name generation =
    text "programs/"
    ++ ns
    ++ text "/"
    ++ name
    ++ text "/"
    ++ decimal_int generation
    ++ text ".tar.gz"

unfoldable pub artifact_url : (server_addr path : Text) → Text
artifact_url server_addr path = text "http://" ++ server_addr ++ text "/" ++ path

module _ (kit : Toolkit) where
  -- The artifact of a Program at a generation, and its bytes; `now` is the time that is printed.
  unfoldable pub build_artifact :
      (program : Program) (ns name : Text) (generation : ℤ) (server_addr now : Text)
      → Result OperatorError (Artifact × Bytes)
  unfolding serialize_program_yaml create_tar_gz artifact_path artifact_url
  build_artifact program ns name generation server_addr now =
      elim (serialize_program_yaml kit program) [
        | err e ↦ err e
        | ok yaml ↦ elim (create_tar_gz kit (text "Pulumi.yaml") yaml) [
          | err e ↦ err e
          | ok bytes ↦
              let path = artifact_path ns name generation in
              ok (
                record {
                  path = path;
                  url = artifact_url server_addr path;
                  revision = decimal_int generation;
                  digest = some (text "sha256:" ++ kit.sha256_hex bytes);
                  last_update_time = now;
                  size = some (pos (length bytes));
                  metadata = none;
                },
                bytes,
              )
        ]
      ]

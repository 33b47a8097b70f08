-- ===== src/Controllers/Programs/Served.antt =====
-- src/operator/controllers/program.rs and controllers/mod.rs: what the file server answers for the
-- artifact that the status of a Program advertises.
use pulumi_rs_kube_operator.Base.{
  Result-cases, inl, inr, subst, sym, arith, some, ok, Text, text, text_eq, false, ◌++◌, ◌≡◌, refl,
  ℤ,
}
use pulumi_rs_kube_operator.Api.Meta.{name_any}
use pulumi_rs_kube_operator.Api.Program.{Program, Artifact}
use pulumi_rs_kube_operator.Operator.Effects.{Env, History, read, pure}
use pulumi_rs_kube_operator.Controllers.FileServer.{
  Artifacts, Bytes, store_artifact, trim_slashes, respond, serve, get-store, get-remove_same,
  get-remove_other,
}
use pulumi_rs_kube_operator.Controllers.Artifact.{
  Toolkit, serialize_program_yaml, create_tar_gz, artifact_path, artifact_url, build_artifact,
}
use pulumi_rs_kube_operator.Controllers.Programs.{
  ensure_serving, reconcile_program, generation_of, publish, applied_in, drop_artifact,
  ensure_served, react, Publisher, program_applied, program_deleted,
}

-- The path of a request for an artifact, without the slash.
artifact_path-trimmed :
    (ns name : Text) (generation : ℤ)
    → trim_slashes (text "/" ++ artifact_path ns name generation) ≡ artifact_path ns name generation
unfolding trim_slashes artifact_path text
artifact_path-trimmed ns name generation = refl

build_artifact-names :
    (kit : Toolkit) (program : Program) (ns name : Text) (generation : ℤ) (server_addr now : Text)
    (artifact : Artifact) (bytes : Bytes)
    → build_artifact kit program ns name generation server_addr now ≡ ok (artifact, bytes)
    → let path = artifact_path ns name generation in
      (artifact.path ≡ path) × (artifact.url ≡ artifact_url server_addr path)
unfolding build_artifact
build_artifact-names kit program ns name generation server_addr now artifact bytes e =
    elim (Result-cases (serialize_program_yaml kit program)) [
      | inl (yaml, a) ↦ elim (Result-cases (create_tar_gz kit (text "Pulumi.yaml") yaml)) [
        | inl (data', b) ↦ let e' = rw (build_artifact, a, b) at e in (ground arith, ground arith)
        | inr (x, b) ↦ let e' = rw (build_artifact, a, b) at e in absurd (ground arith)
      ]
      | inr (x, a) ↦ let e' = rw (build_artifact, a) at e in absurd (ground arith)
    ]

-- A request for an artifact's path, while it is stored or once it is dropped.
served_path :
    (ns name : Text) (generation : ℤ) (bytes : Bytes) (artifacts : Artifacts)
    → let path = artifact_path ns name generation in
      serve (store_artifact path bytes artifacts) (text "/" ++ path)
      ≡ record { status = 200; body = bytes }
unfolding serve respond
served_path ns name generation bytes artifacts =
    rw
      (
        artifact_path-trimmed ns name generation,
        get-store (artifact_path ns name generation) bytes artifacts,
      )
      refl

-- The event of a Program in a namespace.
applied_in-Served :
    (env : Env) (p : Publisher) (program : Program) (ns : Text) (artifacts : Artifacts)
    (h : History) (artifact : Artifact) (bytes : Bytes)
    → reconcile_program (p.stacks h) program ≡ ensure_serving
    → build_artifact p.kit program ns
        (name_any program.metadata)
        (generation_of program)
        p.server_addr
        (env.to_rfc3339 (env.utc (read p.stacks h).1))
      ≡ ok (artifact, bytes)
    → (applied_in env p (some ns) program artifacts h).0
      ≡ store_artifact artifact.path bytes artifacts
unfolding applied_in react ensure_served publish read store_artifact pure
applied_in-Served env p program ns artifacts h artifact bytes serving built =
    rw (serving, built) refl

dropped :
    (ns : Text) (program : Program) (artifacts : Artifacts)
    → let path = artifact_path ns (name_any program.metadata) (generation_of program) in
      ((serve (drop_artifact (some ns) program artifacts) (text "/" ++ path)).status ≡ 404)
      × ((other : Text)
          → text_eq path (trim_slashes other) ≡ false
          → serve (drop_artifact (some ns) program artifacts) other ≡ serve artifacts other)
unfolding drop_artifact serve respond
dropped ns program artifacts =
    let name = name_any program.metadata in
    let path = artifact_path ns name (generation_of program) in
    (
      rw (artifact_path-trimmed ns name (generation_of program), get-remove_same path artifacts)
          refl,
      λ other n. rw (get-remove_other (trim_slashes other) path artifacts n) refl,
    )

-- A Program that is to be served and whose artifact can be built is served after the event: the file
-- server answers a request for the path of its generation with the bytes that were built.
pub program_applied-Served :
    (env : Env) (p : Publisher) (program : Program) (ns : Text) (artifacts : Artifacts)
    (h : History) (artifact : Artifact) (bytes : Bytes)
    → program.metadata.namespace ≡ some ns
    → reconcile_program (p.stacks h) program ≡ ensure_serving
    → let h' = (read p.stacks h).1 in
      let name = name_any program.metadata in
      build_artifact p.kit program ns name
          (generation_of program)
          p.server_addr
          (env.to_rfc3339 (env.utc h'))
        ≡ ok (artifact, bytes)
      → let path = artifact_path ns name (generation_of program) in
        (artifact.url ≡ artifact_url p.server_addr path)
        × (serve (program_applied env p program artifacts h).0 (text "/" ++ path)
            ≡ record { status = 200; body = bytes })
unfolding program_applied
program_applied-Served env p program ns artifacts h artifact bytes in_ns serving built =
    let name = name_any program.metadata in
    let path = artifact_path ns name (generation_of program) in
    let (named, url) =
      build_artifact-names p.kit program ns name (generation_of program) p.server_addr _ artifact
        bytes built in
    let stored = applied_in-Served env p program ns artifacts h artifact bytes serving built in
    (
      url,
      subst
          (λ o.
            serve (applied_in env p o program artifacts h).0 (text "/" ++ path)
            ≡ record { status = 200; body = bytes })
          (sym in_ns)
          (rw (stored, named) (served_path ns name (generation_of program) bytes artifacts)),
    )

-- Once a Program is gone, the path of its last generation is answered by 404, and every other path
-- as before: the artifacts of its earlier generations are still served.
program_deleted-Dropped :
    (program : Program) (ns : Text) (artifacts : Artifacts)
    → program.metadata.namespace ≡ some ns
    → let path = artifact_path ns (name_any program.metadata) (generation_of program) in
      ((serve (program_deleted program artifacts) (text "/" ++ path)).status ≡ 404)
      × ((other : Text)
          → text_eq path (trim_slashes other) ≡ false
          → serve (program_deleted program artifacts) other ≡ serve artifacts other)
unfolding program_deleted
program_deleted-Dropped program ns artifacts in_ns =
    let name = name_any program.metadata in
    let path = artifact_path ns name (generation_of program) in
    subst
      (λ o.
        ((serve (drop_artifact o program artifacts) (text "/" ++ path)).status ≡ 404)
        × ((other : Text)
            → text_eq path (trim_slashes other) ≡ false
            → serve (drop_artifact o program artifacts) other ≡ serve artifacts other))
      (sym in_ns) (dropped ns program artifacts)

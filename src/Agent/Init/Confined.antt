-- ===== src/Agent/Init/Confined.antt =====
-- src/agent/init.rs, `symlink_subdir`: the directory that the workspace becomes a link to lies in the
-- directory of the source.
use pulumi_rs_kube_operator.Base.{
  ◌⊎◌, Option, none, some, List, [], ◌∷◌, ◌++◌, Result, ok, err, Text, text, contains, starts_with,
  ◌≡◌, arith, Bool-cases, Option-cases, Result-cases, inl, inr, subst,
}
use pulumi_rs_kube_operator.Agent.Init.{
  InitError, InitSource, git_source, flux_source, program_source, local_source,
  determine_source_from_env, GitOutput, link_source, symlink_subdir, Download, link_after,
  fetch_source, initialize_workspace,
}
use pulumi_rs_kube_operator.Agent.Init.Paths.{
  components, walk, Below, components-NoParent, walk-Below,
}

-- A path is a directory, or leads with a slash between to a directory below it.
abbrev pub Confined : (source_dir target : Text) → Type 0
Confined source_dir target =
    (target ≡ source_dir)
    ⊎ ((d : Text) × (target ≡ source_dir ++ text "/" ++ d)
        × ((dir : List Text) → Below (walk dir (components d)) dir))

link_source-Confined :
    (source_dir : Text) (subdir : Option Text) {target : Text}
    → link_source source_dir subdir ≡ ok target
    → Confined source_dir target
unfolding link_source text
link_source-Confined source_dir none e = inl (ground arith)
link_source-Confined source_dir (some []) e = inl (ground arith)
link_source-Confined source_dir (some (c ∷ d)) {target} e =
    elim (Bool-cases (contains (c ∷ d) (text ".."))) [
      | inl n ↦ let e' = rw (link_source, n) at e in absurd (ground arith)
      | inr n ↦ elim (Bool-cases (starts_with (text "/") (c ∷ d))) [
        | inl m ↦ let e' = rw (link_source, n, m) at e in absurd (ground arith)
        | inr m ↦
            let e' = rw (link_source, n, m) at e in
            inr (
              c ∷ d,
              ground arith,
              λ dir. walk-Below dir (components (c ∷ d)) (components-NoParent (c ∷ d) n),
            )
      ]
    ]

module _ (git_run : List Text → GitOutput) (download : (url : Text) → Download)
    (symlink : (source workspace_dir : Text) → Option Text) (source_dir workspace_dir : Text) where
  -- The workspace is a link to a place in the directory of the source.
  abbrev pub Linked : Option Text → Type 0
  Linked none = Unit {0}
  Linked (some target) = Confined source_dir target

  link_after-Linked :
      (fetched : Result InitError (Unit {0})) (dir : Option Text) {linked : Option Text}
      → link_after git_run download symlink source_dir workspace_dir fetched dir ≡ ok linked
      → Linked linked
  unfolding link_after symlink_subdir
  link_after-Linked (err x) dir e = absurd (ground arith)
  link_after-Linked (ok u) dir {linked} e = elim (Result-cases (link_source source_dir dir)) [
    | inr (x, f) ↦ let e' = rw (link_after, symlink_subdir, f) at e in absurd (ground arith)
    | inl (source, f) ↦ elim (Option-cases (symlink source workspace_dir)) [
      | inr (m, g) ↦ let e' = rw (link_after, symlink_subdir, f, g) at e in absurd (ground arith)
      | inl g ↦
          let e' = rw (link_after, symlink_subdir, f, g) at e in
          let same : some source ≡ linked = ground arith in
          subst Linked same (link_source-Confined source_dir dir f)
    ]
  ]

  fetch_source-Linked :
      (source : InitSource) {linked : Option Text}
      → fetch_source git_run download symlink source_dir workspace_dir source ≡ ok linked
      → Linked linked
  unfolding fetch_source
  fetch_source-Linked (git_source url revision dir) e = link_after-Linked _ dir e
  fetch_source-Linked (flux_source url digest dir) e = link_after-Linked _ dir e
  fetch_source-Linked (program_source url) e = link_after-Linked _ none e
  fetch_source-Linked local_source {linked} e =
      let same : none ≡ linked = ground arith in subst Linked same tt

  -- Whatever the environment says, and whatever git, the network and the file system answer, if the
  -- workspace is initialized with a link, the link goes to the directory of the source, or to a path
  -- whose components lead from it to a directory below it.
  pub initialize_workspace-Linked :
      (made : Option Text) (get_env : Text → Option Text) {linked : Option Text}
      → initialize_workspace git_run download symlink source_dir workspace_dir made get_env
        ≡ ok linked
      → Linked linked
  unfolding initialize_workspace
  initialize_workspace-Linked (some m) get_env e = absurd (ground arith)
  initialize_workspace-Linked none get_env e =
      fetch_source-Linked (determine_source_from_env get_env) e

-- ===== src/Reconcile/Pipeline/Launch.antt =====
-- src/operator/reconcile/pipeline.rs: the conditions under which a run of the pipeline ends with a
-- new Update.
use pulumi_rs_kube_operator.Base.{
  Bool, true, false, Option, none, some, is_some, Result, ok, Text, Instant, ◌≡◌, refl, arith, ◌≢◌,
  if_elim, if◌then◌else◌, subst, if◌then◌else◌, subst, if◌then◌else◌, subst,
}
use pulumi_rs_kube_operator.Api.Stack.{Stack}
use pulumi_rs_kube_operator.Operator.Messages.{NameKey}
use pulumi_rs_kube_operator.Operator.Finalizers.{
  StackFinalizerAction, stack_finalizer_action, add, keep, already_finalized, remove_immediately,
  run_destroy,
}
use pulumi_rs_kube_operator.Operator.Effects.{Env, History, Op, create_update, newest, Fault, read}
use pulumi_rs_kube_operator.Operator.Fallible.{
  continue, continue-elim, continue-ok, of_result-ok, return, lift,
}
use pulumi_rs_kube_operator.Reconcile.Action.{ReconcileAction, update_created}
use pulumi_rs_kube_operator.Reconcile.Sync.{is_synced}
use pulumi_rs_kube_operator.Reconcile.Prerequisites.{check_prerequisites}
use pulumi_rs_kube_operator.Reconcile.Source.{SourceKind, SourceInfo, from_spec, resolve}
use pulumi_rs_kube_operator.Reconcile.Destroy.{
  handle_destroy, check_destroy, check_current, destroy_verdict, cooling_down, start_destroy,
}
use pulumi_rs_kube_operator.Reconcile.CreateUpdate.{
  hex_short, new_update, update_name, create_update_for,
}
use pulumi_rs_kube_operator.Reconcile.Pipeline.{
  Outcome, dispatch, run_pipeline, normal_flow, advance, launch, check_ready, verify_project,
  check_outstanding, check_named, update_verdict, project_verdict, or_advance,
}
use pulumi_rs_kube_operator.Reconcile.Pipeline.Creation.{create_update_for-newest}

-- A request to create the Update for the commit is the last effect.
pub record Requested (key : NameKey) (stack : Stack) (commit name : Text) (h : History)
    : Type 0 where
  pub short : Text
  pub is_short : hex_short commit ≡ some short
  pub is_name : name ≡ update_name key short
  pub is_last : newest h ≡ some (create_update (new_update key stack (update_name key short)))

-- If a run created an Update, `Q` holds of its name, the remembered commit and the history.
abbrev IfCreated : (Text → Option Text → History → Type 0) → Result Fault Outcome × History → Type 0
IfCreated Q x = (name : Text) (c : Option Text) → x.0 ≡ ok (update_created name, c) → Q name c x.1

module _ (Q : Text → Option Text → History → Type 0) where
  continue-IfCreated :
      {A : Type 0} (r : Result Fault A) (f : A → Op Outcome) (h : History)
      → ((a : A) → r ≡ ok a → IfCreated Q (f a h))
      → IfCreated Q (continue r f h)
  continue-IfCreated r f h k = continue-elim (IfCreated Q) r f h k (λ x name c e. cc)

  if-IfCreated :
      (b : Bool) (m n : Op Outcome) (h : History)
      → (b ≡ true → IfCreated Q (m h))
      → (b ≡ false → IfCreated Q (n h))
      → IfCreated Q ((if b then m else n) h)
  if-IfCreated b m n h = if_elim (λ (o : Op Outcome). IfCreated Q (o h)) b

abbrev pub Launched : NameKey → Stack → Text → Text → Option Text → History → Type 0
Launched key stack commit name c h = (c ≡ some commit) × Requested key stack commit name h

module _ (env : Env) (key : NameKey) (stack : Stack) (commit : Text) where
  created-Requested :
      (h : History) (n : Text)
      → (create_update_for env key stack commit h).0 ≡ ok n
      → Requested key stack commit n (create_update_for env key stack commit h).1
  created-Requested h n e =
      let (short, p, q, l) = create_update_for-newest env key stack commit h e in
      record { short = short; is_short = p; is_name = q; is_last = l }

  returned-Launched :
      (h : History) (n : Text)
      → (create_update_for env key stack commit h).0 ≡ ok n
      → IfCreated (Launched key stack commit) (
          return {A = Outcome}
            (update_created n, some commit)
            (create_update_for env key stack commit h).1)
  unfolding return
  returned-Launched h n p name c e = (
    ground arith,
    subst (λ m. Requested key stack commit m (create_update_for env key stack commit h).1)
        (ground arith) (created-Requested h n p),
  )

  launch-Launched :
      (h : History) → IfCreated (Launched key stack commit) (launch env key stack commit h)
  unfolding launch return
  launch-Launched h =
      let Q = Launched key stack commit in
      continue-IfCreated Q _ _ _ λ ready _.
        if-IfCreated Q ready _ _ _ (λ _. continue-IfCreated Q _ _ _ λ n p. returned-Launched _ n p)
          (λ _ name c e. cc)

-- What held when an Update was created for a commit: the stack's one source had this commit, the
-- stack was not in sync with it, and its prerequisites were satisfied.
pub record Ready (env : Env) (key : NameKey) (stack : Stack) (commit : Text) : Type 0 where
  pub source : SourceKind
  pub is_source : from_spec stack.spec ≡ ok source
  pub resolved :
      (h : History) × (info : SourceInfo) × ((resolve env key.ns source h).0 ≡ ok info)
      × (info.commit ≡ commit)
  pub out_of_sync : (now : Instant) × (is_synced env.parse_rfc3339 now stack commit ≡ false)
  pub satisfied :
      (h : History) × ((check_prerequisites env key.ns stack.spec.prerequisites h).0 ≡ ok tt)

-- The run created the Update of this name for a commit that was ready.
abbrev pub Justified : Env → NameKey → Stack → Text → Option Text → History → Type 0
Justified env key stack name c h =
    (commit : Text) × Ready env key stack commit × Launched key stack commit name c h

module _ (env : Env) (key : NameKey) (stack : Stack) where
  check_ready-ok :
      (h : History)
      → (check_ready env key stack h).0 ≡ ok tt
      → (h' : History) × ((check_prerequisites env key.ns stack.spec.prerequisites h').0 ≡ ok tt)
  unfolding check_ready
  check_ready-ok h e = (h, e)

  advance-Justified : (h : History) → IfCreated (Justified env key stack) (advance env key stack h)
  unfolding advance return lift read
  advance-Justified h =
      let Q = Justified env key stack in
      continue-IfCreated Q _ _ _ λ source p. continue-IfCreated Q _ _ _ λ info q.
        continue-IfCreated Q _ _ _ λ u _. continue-IfCreated Q _ _ _ λ now _.
          if-IfCreated Q (is_synced env.parse_rfc3339 now stack info.commit) _ _ _
            (λ _ name c e. cc)
            (λ out. continue-IfCreated Q _ _ _ λ t s name c e. (
              info.commit,
              record {
                source = source;
                is_source = of_result-ok _ _ p;
                resolved = (_, info, q, refl);
                out_of_sync = (now, out);
                satisfied = check_ready-ok _ s;
              },
              launch-Launched env key stack info.commit _ name c e,
            ))

  or_advance-IfCreated :
      (Q : Text → Option Text → History → Type 0) (v : Option ReconcileAction) (rest : Op Outcome)
      (h : History)
      → ((name : Text) → v ≢ some (update_created name))
      → IfCreated Q (rest h)
      → IfCreated Q (or_advance v rest h)
  unfolding return
  or_advance-IfCreated Q none rest h other k = k
  or_advance-IfCreated Q (some a) rest h other k = λ name c e. absurd (other name (ground arith))

  verify_project-other :
      (h : History) {v : Option ReconcileAction} (name : Text)
      → (verify_project env key stack h).0 ≡ ok v
      → v ≢ some (update_created name)
  unfolding verify_project project_verdict lift return continue
  verify_project-other h name e q = ground arith

  check_outstanding-other :
      (h : History) {v : Option ReconcileAction} (name : Text)
      → (check_outstanding env key stack h).0 ≡ ok v
      → v ≢ some (update_created name)
  unfolding check_outstanding check_named update_verdict return continue
  check_outstanding-other h name e q = ground arith

  normal_flow-Justified :
      (h : History) → IfCreated (Justified env key stack) (normal_flow env key stack h)
  unfolding normal_flow return
  normal_flow-Justified h =
      let Q = Justified env key stack in
      continue-IfCreated Q _ _ _ λ v p.
        or_advance-IfCreated Q v _ _ (λ name. verify_project-other h name p)
          (continue-IfCreated Q _ _ _ λ w q.
            or_advance-IfCreated Q w _ _ (λ name. check_outstanding-other _ name q)
              (if-IfCreated Q (is_some stack.metadata.deletion_timestamp) _ _ _ (λ _ name c e. cc)
                (λ _. advance-Justified _)))

  handle_destroy-other :
      (h : History) (name : Text) → (handle_destroy env key stack h).0 ≢ ok (update_created name)
  unfolding handle_destroy check_destroy check_current destroy_verdict cooling_down start_destroy
      return continue lift
  handle_destroy-other h name e = ground arith

  dispatch-Justified :
      (h : History) (a : StackFinalizerAction) (name : Text) (c : Option Text)
      → (dispatch env key stack a h).0 ≡ ok (update_created name, c)
      → (a ≡ keep) × Justified env key stack name c (dispatch env key stack a h).1
  unfolding dispatch return
  dispatch-Justified h add name c e = cc
  dispatch-Justified h already_finalized name c e = cc
  dispatch-Justified h remove_immediately name c e = cc
  dispatch-Justified h run_destroy name c e =
      let (a, p, q) = continue-ok _ _ _ e in absurd (handle_destroy-other h name (ground arith))
  dispatch-Justified h keep name c e = (refl, normal_flow-Justified h name c e)

-- A run of the pipeline ends with a new Update only for a stack whose finalizer check says keep.
-- The stack's source resolved to a commit with which the stack was not in sync, its
-- prerequisites were satisfied, the commit is the one to remember, and the last effect of the run is
-- the request for the Update that is named after the stack and the short commit.
pub created-Justified :
    (env : Env) (key : NameKey) (stack : Stack) (h : History) {name : Text} {c : Option Text}
    → (run_pipeline env key stack h).0 ≡ ok (update_created name, c)
    → (stack_finalizer_action stack ≡ keep)
      × Justified env key stack name c (run_pipeline env key stack h).1
unfolding run_pipeline
created-Justified env key stack h {name} {c} e =
    dispatch-Justified env key stack h (stack_finalizer_action stack) name c e

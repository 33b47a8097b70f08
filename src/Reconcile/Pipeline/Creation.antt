-- ===== src/Reconcile/Pipeline/Creation.antt =====
-- src/operator/reconcile/pipeline.rs: what has to hold before the pipeline creates an Update, and
-- which Update it creates.
use pulumi_rs_kube_operator.Base.{
  Option, none, some, Result, ok, err, Text, ◌≡◌, refl, ◌==◌, if_elim, arith,
}
use pulumi_rs_kube_operator.Api.Stack.{Stack}
use pulumi_rs_kube_operator.Operator.Messages.{NameKey}
use pulumi_rs_kube_operator.Operator.Effects.{
  Env, History, Op, Kube, create_update, api, other_error, request, perform, Fault, newest,
}
use pulumi_rs_kube_operator.Operator.Fallible.{continue, return, throw, lift, map_err, or_panic}
use pulumi_rs_kube_operator.Reconcile.CheckUpdate.{
  UpdateCheckResult, in_progress, not_found, succeeded, failed, check_update,
}
use pulumi_rs_kube_operator.Reconcile.CheckUpdate.Verdict.{check_update-effects}
use pulumi_rs_kube_operator.Reconcile.CreateUpdate.{
  hex_short, new_update, update_name, create_named, create_update_for, create_reply,
  reuse_or_replace, replace_update,
}

module _ (env : Env) (key : NameKey) (stack : Stack) (name : Text) where
  -- The newest effect asks for the Update of this name, and the step returned the name.
  abbrev Created : Result Fault Text × History → Type 0
  Created (r, h) = (r ≡ ok name) × (newest h ≡ some (create_update (new_update key stack name)))

  replace_update-Created :
      (h : History) {r : Text}
      → (replace_update env key stack name h).0 ≡ ok r
      → Created (replace_update env key stack name h)
  unfolding replace_update continue return lift map_err request perform
  replace_update-Created h e = ground arith

  reuse_or_replace-Created :
      (h : History) (c : UpdateCheckResult) {r : Text}
      → newest h ≡ some (create_update (new_update key stack name))
      → (reuse_or_replace env key stack name c h).0 ≡ ok r
      → Created (reuse_or_replace env key stack name c h)
  unfolding reuse_or_replace return
  reuse_or_replace-Created h in_progress n e = (refl, n)
  reuse_or_replace-Created h not_found n e = replace_update-Created h e
  reuse_or_replace-Created h (succeeded p o) n e = replace_update-Created h e
  reuse_or_replace-Created h (failed m) n e = replace_update-Created h e

  checked-Created :
      (h : History) (c : Result Fault UpdateCheckResult) {r : Text}
      → newest h ≡ some (create_update (new_update key stack name))
      → (continue c (reuse_or_replace env key stack name) h).0 ≡ ok r
      → Created (continue c (reuse_or_replace env key stack name) h)
  unfolding continue
  checked-Created h (ok c) n e = reuse_or_replace-Created h c n e
  checked-Created h (err f) n e = cc

  create_reply-Created :
      (h : History) (reply : Kube (Unit {0})) {r : Text}
      → newest h ≡ some (create_update (new_update key stack name))
      → (create_reply env key stack name reply h).0 ≡ ok r
      → Created (create_reply env key stack name reply h)
  unfolding create_reply return throw
  create_reply-Created h (ok u) n e = (refl, n)
  create_reply-Created h (err (api code)) {r} n e =
      if_elim {A = Op Text} (λ m. (m h).0 ≡ ok r → Created (m h)) (code == 409)
        (λ _ e'.
          checked-Created (check_update env key.ns name h).1 (check_update env key.ns name h).0
            (rw (check_update-effects env key.ns name h) n) e')
        (λ _ e'. cc) e
  create_reply-Created h (err other_error) n e = cc

  create_named-Created :
      (h : History) {r : Text}
      → (create_named env key stack name h).0 ≡ ok r
      → Created (create_named env key stack name h)
  unfolding create_named continue lift request
  create_named-Created h e =
      let sent = request env (create_update (new_update key stack name)) h in
      create_reply-Created sent.1 sent.0 refl e

short-Created :
    (env : Env) (key : NameKey) (stack : Stack) (s : Option Text) (h : History) {name : Text}
    → (continue
        (or_panic s h).0
        (λ short. create_named env key stack (update_name key short))
        (or_panic s h).1).0
      ≡ ok name
    → (short : Text) × (s ≡ some short)
      × (name ≡ update_name key short)
      × Created env key stack (update_name key short) (
          continue
            (or_panic s h).0
            (λ short'. create_named env key stack (update_name key short'))
            (or_panic s h).1)
unfolding or_panic continue
short-Created env key stack none h e = cc
short-Created env key stack (some short) h e =
    let c = create_named-Created env key stack (update_name key short) h e in
    (short, refl, ground arith, c)

-- `create_update` returns only after it has sent a request to create the Update that carries the
-- name of the stack and the short commit, and that request is its last effect.
pub create_update_for-newest :
    (env : Env) (key : NameKey) (stack : Stack) (commit : Text) (h : History) {name : Text}
    → (create_update_for env key stack commit h).0 ≡ ok name
    → (short : Text) × (hex_short commit ≡ some short)
      × (name ≡ update_name key short)
      × (newest (create_update_for env key stack commit h).1
          ≡ some (create_update (new_update key stack (update_name key short))))
unfolding create_update_for
create_update_for-newest env key stack commit h e =
    let (short, p, q, c) = short-Created env key stack (hex_short commit) h e in (short, p, q, c.1)

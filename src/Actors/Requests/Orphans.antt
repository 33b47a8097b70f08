-- ===== src/Actors/Requests/Orphans.antt =====
-- src/operator/actors/actor.rs, `cleanup_orphaned_updates`: which Updates lose their finalizers.
use mathlib.Core.Bool.{◌&&◌}
use pulumi_rs_kube_operator.Base.{
  true, List, [], ◌∷◌, AnyOf, any-AnyOf, Picked, picks, passes, picks_none, ok, Text, text, text_eq,
  text_eq→eq, text_eq_self, ◌≡◌, ◌↔◌, refl, arith, Bool-cases, inl, inr,
}
use pulumi_rs_kube_operator.Api.Meta.{OwnerReference, name_any, finalizers_of}
use pulumi_rs_kube_operator.Api.Conditions.{stack_finalizer}
use pulumi_rs_kube_operator.Api.Update.{Update}
use pulumi_rs_kube_operator.Operator.Messages.{NameKey}
use pulumi_rs_kube_operator.Operator.Effects.{
  Env, History, Effect, clear_update_finalizers, request, read, pure,
}
use pulumi_rs_kube_operator.Actors.Requests.{
  owned_by_stack, is_orphan, cleanup_loop, cleanup_orphaned_updates, remove_update_finalizer,
}

-- One of the owners is the Stack with the name of the key.
abbrev pub Owned : NameKey → Update → Type 0
Owned key u =
    AnyOf (λ (o : OwnerReference). (o.kind ≡ text "Stack") × (o.name ≡ key.name))
      u.metadata.owner_references

-- It is the stack's, and carries the finalizer that the operator sets.
abbrev pub Orphan : NameKey → Update → Type 0
Orphan key u = Owned key u × AnyOf (λ f. f ≡ stack_finalizer) (finalizers_of u.metadata)

-- The requests for some Updates, newest first, before the effects so far.
abbrev pub cleared : NameKey → List Update → List Effect → List Effect
cleared key [] es = es
cleared key (u ∷ us) es = cleared key us (clear_update_finalizers key.ns (name_any u.metadata) ∷ es)

owner_iff :
    (key : NameKey) (o : OwnerReference)
    → text_eq o.kind (text "Stack") && text_eq o.name key.name ≡ true
      ↔ ((o.kind ≡ text "Stack") × (o.name ≡ key.name))
owner_iff key o = (
  λ e.
      let a : text_eq o.kind (text "Stack") ≡ true = ground arith in
      let b : text_eq o.name key.name ≡ true = ground arith in (text_eq→eq _ _ a, text_eq→eq _ _ b),
  λ (k, n). rw (k, n, text_eq_self (text "Stack"), text_eq_self key.name) refl,
)

finalizer_iff : (f : Text) → text_eq f stack_finalizer ≡ true ↔ (f ≡ stack_finalizer)
finalizer_iff f = (text_eq→eq f stack_finalizer, λ e. rw e (text_eq_self stack_finalizer))

is_orphan_iff : (key : NameKey) (u : Update) → is_orphan key u ≡ true ↔ Orphan key u
unfolding is_orphan owned_by_stack
is_orphan_iff key u =
    let owned = any-AnyOf _ _ u.metadata.owner_references (owner_iff key) in
    let carries = any-AnyOf _ _ (finalizers_of u.metadata) finalizer_iff in
    (
      λ e. (owned.0 (ground arith), carries.0 (ground arith)),
      λ (o, c). rw (owned.1 o, carries.1 c) refl,
    )

-- What is cleared of a list of Updates.
pub record Cleared (key : NameKey) (us : List Update) (before after : List Effect) : Type 0 where
  pub orphans : List Update
  pub picked : Picked (Orphan key) us orphans
  pub effects : after ≡ cleared key orphans before

cleanup_loop-Cleared :
    (env : Env) (key : NameKey) (us : List Update) (h : History)
    → Cleared key us h.effects (cleanup_loop env key us h).1.effects
unfolding cleanup_loop remove_update_finalizer request pure
cleanup_loop-Cleared env key [] h = record { orphans = []; picked = picks_none; effects = refl }
cleanup_loop-Cleared env key (u ∷ us) h = elim (Bool-cases (is_orphan key u)) [
  | inl e ↦ rw e (
      let rest = cleanup_loop-Cleared env key us _ in
      record {
        orphans = u ∷ rest.orphans;
        picked = picks ((is_orphan_iff key u).0 e) rest.picked;
        effects = rest.effects;
      })
  | inr e ↦ rw e (
      let rest = cleanup_loop-Cleared env key us _ in
      record {
        orphans = rest.orphans;
        picked =
            passes (λ o. let t = (is_orphan_iff key u).1 o in absurd (ground arith)) rest.picked;
        effects = rest.effects;
      })
]

-- Cleaning up after a stack that is gone clears the finalizers of exactly those Updates of the list
-- that have a Stack of its name among their owners and carry the operator's finalizer, in the order
-- of the list, and does nothing else.
pub cleanup-Cleared :
    (env : Env) (key : NameKey) (h : History) {us : List Update}
    → env.list_updates key.ns h ≡ ok us
    → Cleared key us h.effects (cleanup_orphaned_updates env key h).1.effects
unfolding cleanup_orphaned_updates read
cleanup-Cleared env key h {us} e = rw e (cleanup_loop-Cleared env key us _)

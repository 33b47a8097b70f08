-- ===== src/Controllers/UpdateWatcher/Exclusion.antt =====
-- src/operator/controllers/mod.rs, `run_update_watcher`: no two tasks carry out one Update.
use pulumi_rs_kube_operator.Base.{
  ℕ, suc, if_elim, Option, ◌-◌, ◌≤◌, true, false, none, some, List, [], ◌∷◌, Text, text_eq,
  text_eq→eq, text_eq_self, count, ◌≡◌, refl, arith, Bool-cases, Option-cases, inl, inr, subst, ◌∙◌,
}
use pulumi_rs_kube_operator.Api.Meta.{OwnerReference, name_any}
use pulumi_rs_kube_operator.Api.Update.{Update}
use pulumi_rs_kube_operator.Controllers.ExecuteUpdate.{stack_owner}
use pulumi_rs_kube_operator.Controllers.UpdateWatcher.{
  needs_execution, update_key, holds, remove_key, start_task, notification, apply_in, on_apply,
  Reaction, Watch, spawn, observe, end_one, complete_task, observed, ended, Reach, at_start, later,
}

-- How often a key stands in a list.
abbrev pub times : Text → List Text → ℕ
times key keys = count (λ k. text_eq k key) keys

holds-times : (key : Text) (set : List Text) → holds key set ≡ false → times key set ≡ 0
unfolding holds
holds-times key [] e = refl
holds-times key (k ∷ ks) e = let rest = holds-times key ks in ground arith

own : (key : Text) (keys : List Text) → times key (key ∷ keys) ≡ suc (times key keys)
own key keys = rw (text_eq_self key) refl

other :
    (k key : Text) (keys : List Text) → text_eq key k ≡ false → times k (key ∷ keys) ≡ times k keys
other k key keys e = rw e refl

-- Two texts that differ from a third in the same way.
apart : (j key k : Text) → text_eq j key ≡ true → text_eq key k ≡ false → text_eq j k ≡ false
apart j key k e n = rw (text_eq→eq j key e) n

remove_key-own : (key : Text) (set : List Text) → times key (remove_key key set) ≡ 0
unfolding remove_key
remove_key-own key [] = refl
remove_key-own key (k ∷ ks) = let rest = remove_key-own key ks in ground arith

remove_key-other :
    (k key : Text) (set : List Text)
    → text_eq key k ≡ false
    → times k (remove_key key set) ≡ times k set
unfolding remove_key
remove_key-other k key [] n = refl
remove_key-other k key (j ∷ js) n =
    let rest = remove_key-other k key js n in
    elim (Bool-cases (text_eq j key)) [
      | inl e ↦ rw (e, apart j key k e n) rest
      | inr e ↦ rw e (ground arith)
    ]

end_one-own : (key : Text) (keys : List Text) → times key (end_one key keys) ≡ times key keys - 1
unfolding end_one
end_one-own key [] = refl
end_one-own key (k ∷ ks) = let rest = end_one-own key ks in ground arith

end_one-other :
    (k key : Text) (keys : List Text)
    → text_eq key k ≡ false
    → times k (end_one key keys) ≡ times k keys
unfolding end_one
end_one-other k key [] n = refl
end_one-other k key (j ∷ js) n =
    let rest = end_one-other k key js n in
    elim (Bool-cases (text_eq j key)) [
      | inl e ↦ rw (e, apart j key k e n) refl
      | inr e ↦ rw e (ground arith)
    ]

-- The set has each key once at most, and has the keys of the tasks that run.
abbrev pub Exclusive : Watch → Type 0
Exclusive w = (k : Text) → (times k w.in_progress ≤ 1) × (times k w.tasks ≡ times k w.in_progress)

-- Entering a key that is not there.
enter-Exclusive :
    (key : Text) (set tasks : List Text)
    → holds key set ≡ false
    → Exclusive (record { in_progress = set; tasks = tasks })
    → Exclusive (record { in_progress = key ∷ set; tasks = key ∷ tasks })
enter-Exclusive key set tasks free x k = elim (Bool-cases (text_eq key k)) [
  | inl e ↦
      let z = holds-times key set free in
      let z' = subst (λ j. times j set ≡ 0) (text_eq→eq key k e) z in
      let (a, b) = x k in rw e (omega arith, omega arith)
  | inr e ↦ rw e (x k)
]

-- Entering a key and taking it out again.
undo-Exclusive :
    (key : Text) (set tasks : List Text)
    → holds key set ≡ false
    → Exclusive (record { in_progress = set; tasks = tasks })
    → Exclusive (record { in_progress = remove_key key (key ∷ set); tasks = tasks })
undo-Exclusive key set tasks free x k = elim (Bool-cases (text_eq key k)) [
  | inl e ↦
      let gone =
        subst (λ j. times j (remove_key key (key ∷ set)) ≡ 0) (text_eq→eq key k e)
          (remove_key-own key (key ∷ set)) in
      let zero_times =
        subst (λ j. times j set ≡ 0) (text_eq→eq key k e) (holds-times key set free) in
      let (a, b) = x k in (omega (arith, gone), omega (arith, gone, zero_times, b))
  | inr e ↦
      let same = remove_key-other k key (key ∷ set) e ∙ other k key set e in
      let (a, b) = x k in (omega (arith, same), omega (arith, same))
]

-- What an answer of the watcher makes of the set and the tasks.
abbrev After : List Text → Reaction × List Text → Type 0
After tasks r = Exclusive (record { in_progress = r.1; tasks = spawn r.0 tasks })

start_task-Exclusive :
    (ns : Text) (u : Update) (set tasks : List Text)
    → Exclusive (record { in_progress = set; tasks = tasks })
    → After tasks (start_task ns u set)
unfolding start_task
start_task-Exclusive ns u set tasks x =
    let key = update_key ns (name_any u.metadata) in
    if_elim (After tasks) (holds key set) (λ _. x)
      (λ free. elim (Option-cases u.spec.workspace_name) [
        | inl e ↦ rw e (undo-Exclusive key set tasks free x)
        | inr (w, e) ↦ rw e (enter-Exclusive key set tasks free x)
      ])

notification-Exclusive :
    (ns : Text) (o : Option OwnerReference) (set tasks : List Text)
    → Exclusive (record { in_progress = set; tasks = tasks })
    → After tasks (notification ns o, set)
unfolding notification
notification-Exclusive ns none set tasks x = x
notification-Exclusive ns (some o) set tasks x = x

apply_in-Exclusive :
    (o : Option Text) (u : Update) (set tasks : List Text)
    → Exclusive (record { in_progress = set; tasks = tasks })
    → After tasks (apply_in o u set)
unfolding apply_in
apply_in-Exclusive none u set tasks x = x
apply_in-Exclusive (some ns) u set tasks x =
    if_elim (After tasks) (needs_execution u) (λ _. start_task-Exclusive ns u set tasks x)
      (λ _. notification-Exclusive ns (stack_owner u) set tasks x)

observe-Exclusive : (u : Update) (w : Watch) → Exclusive w → Exclusive (observe u w)
unfolding observe on_apply
observe-Exclusive u w x = apply_in-Exclusive u.metadata.namespace u w.in_progress w.tasks x

complete_task-Exclusive : (key : Text) (w : Watch) → Exclusive w → Exclusive (complete_task key w)
unfolding complete_task
complete_task-Exclusive key w x k = elim (Bool-cases (text_eq key k)) [
  | inl e ↦
      let same = text_eq→eq key k e in
      let out =
        subst (λ j. times j (remove_key key w.in_progress) ≡ 0) same
          (remove_key-own key w.in_progress) in
      let left =
        subst (λ j. times j (end_one key w.tasks) ≡ times j w.tasks - 1) same
          (end_one-own key w.tasks) in
      let (a, b) = x k in (omega (arith, out), omega (arith, out, left, a, b))
  | inr e ↦
      let out = remove_key-other k key w.in_progress e in
      let left = end_one-other k key w.tasks e in
      let (a, b) = x k in (omega (arith, out, a), omega (arith, out, left, b))
]

-- In every reachable state the set `update_in_progress` holds each key at most once, and as many
-- tasks run for a key as it has entries: never two for one Update.
pub Reach-Exclusive : {w : Watch} → Reach w → Exclusive w
Reach-Exclusive at_start = λ k. (omega arith, refl)
Reach-Exclusive (later r (observed u)) = observe-Exclusive u _ (Reach-Exclusive r)
Reach-Exclusive (later r (ended key runs)) = complete_task-Exclusive key _ (Reach-Exclusive r)

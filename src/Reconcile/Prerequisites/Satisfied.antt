-- ===== src/Reconcile/Prerequisites/Satisfied.antt =====
-- src/operator/reconcile/prerequisites.rs: what the check of the prerequisites decides.
use pulumi_rs_kube_operator.Base.{
  suc, true, not, Option, none, some, and_then, List, [], ◌∷◌, Result, ok, Text, text,
  option_text_eq, option_text_eq→eq, eq→option_text_eq, Instant, ltb, arith, ◌≤◌, ◌≡◌, ◌≢◌, ◌↔◌,
  inl, inr, refl, if_elim, Option-cases, Result-cases,
}
use pulumi_rs_kube_operator.Core.Time.{elapsed_since, parse_go_duration}
use pulumi_rs_kube_operator.Errors.{OperatorError}
use pulumi_rs_kube_operator.Api.Stack.{Stack, StackUpdateState, PrerequisiteRef}
use pulumi_rs_kube_operator.Reconcile.Sync.{last_update}
use pulumi_rs_kube_operator.Operator.Effects.{Env, History, read}
use pulumi_rs_kube_operator.Operator.Fallible.{continue, lift, of_result, return, throw}
use pulumi_rs_kube_operator.Reconcile.Prerequisites.{
  not_satisfied, within_duration, check_last_update, check_stack, check_single_prerequisite,
  check_prerequisites,
}

module _ (parse : Text → Option Instant) (now : Instant) (store : Text → Option Stack) where
  -- The stack is in the cache, its last Update succeeded, and that is not too long ago: where the
  -- prerequisite asks for a duration and the time of the Update is known.
  pub record Satisfied (prereq : PrerequisiteRef) : Type 0 where
    pub stack : Stack
    pub status : StackUpdateState
    pub cached : store prereq.name ≡ some stack
    pub updated : last_update stack ≡ some status
    pub succeeded : status.state ≡ some (text "succeeded")
    pub recent :
        (duration t : Text)
        → and_then prereq.requirement (λ r. r.succeeded_within_duration) ≡ some duration
        → status.last_resync_time ≡ some t
        → elapsed_since parse now (some t) ≤ parse_go_duration duration

  within_duration_sound :
      (p : PrerequisiteRef) (status : StackUpdateState) (duration t : Text)
      → within_duration parse now store p status ≡ true
      → and_then p.requirement (λ r. r.succeeded_within_duration) ≡ some duration
      → status.last_resync_time ≡ some t
      → elapsed_since parse now (some t) ≤ parse_go_duration duration
  unfolding within_duration
  within_duration_sound p status duration t w d l =
      let w' : not (ltb (parse_go_duration duration) (elapsed_since parse now (some t))) ≡ true =
        rw (within_duration, d, l) at w in
      ground arith

  within_duration_complete :
      (p : PrerequisiteRef) (status : StackUpdateState)
      → ((duration t : Text)
          → and_then p.requirement (λ r. r.succeeded_within_duration) ≡ some duration
          → status.last_resync_time ≡ some t
          → elapsed_since parse now (some t) ≤ parse_go_duration duration)
      → within_duration parse now store p status ≡ true
  unfolding within_duration
  within_duration_complete p status r =
      elim (Option-cases (and_then p.requirement (λ r. r.succeeded_within_duration))) [
        | inl n ↦ rw (within_duration, n) refl
        | inr (duration, d) ↦ elim (Option-cases status.last_resync_time) [
          | inl n ↦ rw (within_duration, d, n) refl
          | inr (t, l) ↦ let e = r duration t d l in rw (within_duration, d, l) (ground arith)
        ]
      ]

  ok≢not_satisfied : not_satisfied {A = Unit {0}} ≢ ok tt
  ok≢not_satisfied = ground arith

  check_last-Satisfied :
      (p : PrerequisiteRef) (stack : Stack) (last : Option StackUpdateState)
      → store p.name ≡ some stack
      → last_update stack ≡ last
      → check_last_update parse now store p last ≡ ok tt
      → Satisfied p
  unfolding check_last_update
  check_last-Satisfied p stack none c u = λ e. absurd (ok≢not_satisfied e)
  check_last-Satisfied p stack (some status) c u =
      if_elim {A = Result OperatorError (Unit {0})} (λ r. r ≡ ok tt → Satisfied p)
        (not (option_text_eq status.state (some (text "succeeded"))))
        (λ _ e. absurd (ok≢not_satisfied e))
        (λ s.
          if_elim {A = Result OperatorError (Unit {0})} (λ r. r ≡ ok tt → Satisfied p)
            (within_duration parse now store p status)
            (λ w _. record {
              stack = stack;
              status = status;
              cached = c;
              updated = u;
              succeeded = option_text_eq→eq _ _ (ground arith);
              recent = λ duration t. within_duration_sound p status duration t w;
            })
            (λ _ e. absurd (ok≢not_satisfied e)))

  check_single-Satisfied :
      (p : PrerequisiteRef) (found : Option Stack)
      → store p.name ≡ found
      → check_stack parse now store p found ≡ ok tt
      → Satisfied p
  unfolding check_stack
  check_single-Satisfied p none c e = absurd (ok≢not_satisfied e)
  check_single-Satisfied p (some stack) c e =
      check_last-Satisfied p stack (last_update stack) c refl e

  Satisfied-check_single :
      (p : PrerequisiteRef) → Satisfied p → check_single_prerequisite parse now store p ≡ ok tt
  unfolding check_single_prerequisite check_stack check_last_update
  Satisfied-check_single p s =
      rw
        (
          s.cached,
          s.updated,
          eq→option_text_eq s.succeeded,
          within_duration_complete p s.status s.recent,
        )
        refl

  single-Satisfied :
      (p : PrerequisiteRef) → check_single_prerequisite parse now store p ≡ ok tt → Satisfied p
  unfolding check_single_prerequisite
  single-Satisfied p e = check_single-Satisfied p (store p.name) refl e

-- The history after a read.
abbrev pub later : History → History
later h = record h { reads = suc h.reads }

module _ (env : Env) (ns : Text) where
  -- Each prerequisite is satisfied, by the cache and the clock as they are read for it.
  abbrev pub AllSatisfied : List PrerequisiteRef → History → Type 0
  AllSatisfied [] h = Unit {0}
  AllSatisfied (p ∷ ps) h =
      Satisfied env.parse_rfc3339 (env.utc (later h)) (λ name. env.store_stack ns name h) p
      × AllSatisfied ps (later (later h))

  check_all-Satisfied :
      (ps : List PrerequisiteRef) (h : History)
      → (check_prerequisites env ns ps h).0 ≡ ok tt
      → AllSatisfied ps h
  unfolding check_prerequisites continue lift read of_result return throw
  check_all-Satisfied [] h e = tt
  check_all-Satisfied (p ∷ ps) h e =
      let now = env.utc (later h) in
      let store = λ (name : Text). env.store_stack ns name h in
      elim (Result-cases (check_single_prerequisite env.parse_rfc3339 now store p)) [
        | inl (u, o) ↦ (
          single-Satisfied env.parse_rfc3339 now store p o,
          check_all-Satisfied ps (later (later h)) (rw o at e),
        )
        | inr (x, o) ↦ let e' = rw o at e in absurd (ground arith)
      ]

  AllSatisfied-check :
      (ps : List PrerequisiteRef) (h : History)
      → AllSatisfied ps h
      → (check_prerequisites env ns ps h).0 ≡ ok tt
  unfolding check_prerequisites continue lift read of_result return
  AllSatisfied-check [] h s = refl
  AllSatisfied-check (p ∷ ps) h (s, ss) =
      let now = env.utc (later h) in
      let store = λ (name : Text). env.store_stack ns name h in
      rw (Satisfied-check_single env.parse_rfc3339 now store p s)
        (AllSatisfied-check ps (later (later h)) ss)

  -- The check lets a stack through exactly when each of its prerequisites, as the cache and the clock
  -- are read for it, is in the cache, has succeeded last, and that not longer ago than it asks for; a
  -- prerequisite that asks for no duration, or whose last time is not known, passes this last test.
  pub check_prerequisites_iff :
      (ps : List PrerequisiteRef) (h : History)
      → (check_prerequisites env ns ps h).0 ≡ ok tt ↔ AllSatisfied ps h
  check_prerequisites_iff ps h = (check_all-Satisfied ps h, AllSatisfied-check ps h)

-- ===== src/Controllers/StreamUpdate/Calls/Chains.antt =====
-- The calls of the agent that a step of src/operator/controllers/update.rs makes, as lists that are
-- put together along the chains of steps.
use pulumi_rs_kube_operator.Base.{
  ℕ, zero, suc, length, Bool-cases, Option, none, some, List, [], ◌∷◌, ◌++◌, Result, ok, err, Text,
  Duration, ◌≡◌, refl, sym, ◌∙◌, ap, arith, append_assoc, Result-cases, inl, inr,
}
use pulumi_rs_kube_operator.Core.Lock.{Status, is_lock_error, retry_loop, retry_on_lock}
use pulumi_rs_kube_operator.Operator.Effects.{History, M, Op, Effect, read, perform, agent_call}
use pulumi_rs_kube_operator.Operator.Fallible.{◌>>=◌, continue, return, throw, lift, or_panic}
use pulumi_rs_kube_operator.Controllers.Protocol.{Call}
use pulumi_rs_kube_operator.Controllers.StreamUpdate.{Agent, grpc, attempts, retried}

-- The calls among some effects, newest first.
abbrev pub calls : List Effect → List Call
calls [] = []
calls (agent_call c ∷ es) = c ∷ calls es
calls (e ∷ es) = calls es

-- A step that returned has made these calls.
abbrev pub Adds : {A : Type 0} → Op A → List Call → Type 0
Adds {A} m cs =
    (h : History) (a : A) → (m h).0 ≡ ok a → calls (m h).1.effects ≡ cs ++ calls h.effects

pub chain-Adds :
    {A B : Type 0} (m : Op A) (f : A → Op B) (cs ds : List Call)
    → Adds m cs
    → ((a : A) → Adds (f a) ds)
    → Adds (m >>= f) (ds ++ cs)
unfolding continue
chain-Adds m f cs ds first rest h b e = elim (Result-cases (m h).0) [
  | inl (a, p) ↦ rw p (
      rest a (m h).1 b (rw p at e)
      ∙ ap (λ z. ds ++ z) (first h a p)
      ∙ sym (append_assoc ds cs (calls h.effects)))
  | inr (x, p) ↦ let e' = rw p at e in absurd (ground arith)
]

pub lift-Adds :
    {A : Type 0} (m : M A) (cs : List Call)
    → ((h : History) → calls (m h).1.effects ≡ cs ++ calls h.effects)
    → Adds (lift m) cs
unfolding lift
lift-Adds m cs p h a e = p h

pub perform-calls :
    (c : Call) (h : History) → calls (perform (agent_call c) h).1.effects ≡ c ∷ calls h.effects
unfolding perform
perform-calls c h = refl

pub read-calls :
    {A : Type 0} (f : History → A) (h : History) → calls (read f h).1.effects ≡ calls h.effects
unfolding read
read-calls f h = refl

pub grpc-Adds : {A : Type 0} (agent : Agent) (r : Result Status A) → Adds (grpc agent r) []
unfolding grpc return throw
grpc-Adds agent (ok a) h b e = refl
grpc-Adds agent (err x) h b e = refl

-- A step that returned has made the calls that belong to some moment.
abbrev pub Varies : {A I : Type 0} → Op A → (I → List Call) → Type 0
Varies {A} {I} m F =
    (h : History) (a : A)
    → (m h).0 ≡ ok a
    → (i : I) × (calls (m h).1.effects ≡ F i ++ calls h.effects)

pub fixed-Varies :
    {A : Type 0} (m : Op A) (cs : List Call) → Adds m cs → Varies {I = Unit {0}} m (λ _. cs)
fixed-Varies m cs adds h a e = (tt, adds h a e)

pub chain-Varies :
    {A B I J : Type 0} (m : Op A) (f : A → Op B) (F : I → List Call) (G : J → List Call)
    → Varies m F
    → ((a : A) → Varies (f a) G)
    → Varies (m >>= f) (λ (ij : I × J). G ij.1 ++ F ij.0)
unfolding continue
chain-Varies m f F G first rest h b e = elim (Result-cases (m h).0) [
  | inl (a, p) ↦
      let (i, x) = first h a p in
      let (j, y) = rest a (m h).1 b (rw p at e) in
      rw p ((i, j), y ∙ ap (λ z. G j ++ z) x ∙ sym (append_assoc (G j) (F i) (calls h.effects)))
  | inr (x, p) ↦ let e' = rw p at e in absurd (ground arith)
]

-- A call that is made a number of times.
abbrev pub repeated : ℕ → Call → List Call
repeated zero call = []
repeated (suc n) call = call ∷ repeated n call

-- The number of attempts for some pauses.
abbrev tried : (remaining : ℕ) → List Duration → ℕ
tried zero ds = 0
tried (suc n) [] = 1
tried (suc n) (d ∷ ds) = suc (tried n ds)

repeated-last :
    (n : ℕ) (call : Call) (cs : List Call)
    → repeated n call ++ (call ∷ cs) ≡ call ∷ (repeated n call ++ cs)
repeated-last zero call cs = refl
repeated-last (suc n) call cs = ap (λ z. call ∷ z) (repeated-last n call cs)

attempts-calls :
    (call : Call) (remaining : ℕ) (ds : List Duration) (h : History)
    → calls (attempts call remaining ds h).1.effects
      ≡ repeated (tried remaining ds) call ++ calls h.effects
unfolding attempts perform
attempts-calls call zero ds h = refl
attempts-calls call (suc n) [] h = refl
attempts-calls call (suc n) (d ∷ ds) h =
    attempts-calls call n ds _ ∙ repeated-last (tried n ds) call (calls h.effects)

-- A loop that ends with an answer has made one attempt more than pauses.
retry_loop-tried :
    {A : Type 0} (operation : Text) (max : ℕ) (call : ℕ → Result Status A) (remaining attempt : ℕ)
    (last : Option Status) (a : A)
    → (retry_loop operation max call remaining attempt last).0 ≡ ok a
    → tried remaining (retry_loop operation max call remaining attempt last).1
      ≡ suc (length (retry_loop operation max call remaining attempt last).1)
unfolding retry_loop
retry_loop-tried operation max call zero attempt last a e = absurd (ground arith)
retry_loop-tried operation max call (suc n) attempt last a e = elim (Result-cases (call attempt)) [
  | inl (x, p) ↦ rw (retry_loop, p) refl
  | inr (x, p) ↦ elim (Bool-cases (is_lock_error x.status_message)) [
    | inl l ↦
        let e' = rw (retry_loop, p, l) at e in
        rw (retry_loop, p, l)
          (ap suc (retry_loop-tried operation max call n (suc attempt) (some x) a e'))
    | inr l ↦ let e' = rw (retry_loop, p, l) at e in absurd (ground arith)
  ]
]

grpc-ok :
    {A : Type 0} (agent : Agent) (r : Result Status A) (h : History) (a : A)
    → (grpc agent r h).0 ≡ ok a
    → (r ≡ ok a) × ((grpc agent r h).1 ≡ h)
unfolding grpc return throw
grpc-ok agent (ok b) h a e = (ground arith, refl)
grpc-ok agent (err x) h a e = absurd (ground arith)

-- The attempts of a retry loop that ends with an answer, whose answers depend on a moment.
abbrev pub attempts_at : {A : Type 0} → Text → (ℕ → History → Result Status A) → History → ℕ
attempts_at operation answer start =
    suc (length (retry_on_lock operation 10 (λ n. answer n start)).1)

pub retried-Varies :
    {A : Type 0} (agent : Agent) (operation : Text) (call : Call)
    (answer : ℕ → History → Result Status A)
    → Varies
        (retried agent operation call answer)
        (λ (start : History). repeated (attempts_at operation answer start) call)
unfolding retried continue lift read retry_on_lock
retried-Varies agent operation call answer h a e =
    let loop = retry_on_lock operation 10 (λ n. answer n h) in
    let h' = record h { reads = suc h.reads } in
    let (r, same) = grpc-ok agent loop.0 (attempts call 10 loop.1 h').1 a e in
    let t = retry_loop-tried operation 10 (λ n. answer n h) 10 0 none a r in
    (
      h,
      ap (λ (z : History). calls z.effects) same
          ∙ attempts-calls call 10 loop.1 h'
          ∙ ap (λ n. repeated n call ++ calls h.effects) t,
    )

pub return-Adds : {A : Type 0} (a : A) → Adds (return a) []
unfolding return
return-Adds a h b e = refl

pub or_panic-Adds : {A : Type 0} (o : Option A) → Adds (or_panic o) []
unfolding or_panic
or_panic-Adds none h a e = refl
or_panic-Adds (some x) h a e = refl

-- ===== src/Controllers/StreamUpdate/Calls.antt =====
-- src/operator/controllers/update.rs, `stream_update`: the calls of the agent, in their order.
mod Chains
pub use Chains.{calls}
use Chains.{
  Adds, chain-Adds, lift-Adds, perform-calls, read-calls, grpc-Adds, retried-Varies, Varies,
  fixed-Varies, chain-Varies, repeated, attempts_at, return-Adds, or_panic-Adds,
}
use pulumi_rs_kube_operator.Base.{
  ℕ, Option, none, some, Option-cases, List, [], ◌∷◌, ◌++◌, Result, ok, err, Text, text, Duration,
  ◌≡◌, refl, sym, ◌∙◌, ap, arith, append_assoc, append-nil, ◌≢◌, Bool, true, false, if◌then◌else◌,
  Result-cases, inl, inr,
}
use pulumi_rs_kube_operator.Errors.{transient, connection_failed}
use pulumi_rs_kube_operator.Core.Lock.{Status, retry_on_lock}
use pulumi_rs_kube_operator.Api.Update.{
  Update, UpdateSpec, UpdateType, up, preview, destroy, refresh_only,
}
use pulumi_rs_kube_operator.Operator.Effects.{
  Env, History, M, Op, Effect, read, perform, agent_call, sleep,
}
use pulumi_rs_kube_operator.Operator.Fallible.{
  ◌>>=◌, ◌>>◌, continue, continue-ok, return, throw, lift, or_panic,
}
use pulumi_rs_kube_operator.Controllers.Protocol.{
  Config, Call, install, select_stack, set_all_config, run_up, run_preview, run_destroy,
  run_refresh,
}
use pulumi_rs_kube_operator.Controllers.StreamUpdate.{
  Agent, StreamResult, Stream, grpc, retried, select, config_items, set_config, stream, up_request,
  preview_request, destroy_request, refresh_request, run_operation, lend_channel, stream_update,
}

-- SelectStack, as often as the loop that repeats it tries from a moment on.
abbrev pub select_calls : Agent → Option Text → History → List Call
select_calls agent none start = []
select_calls agent (some stack_name) start =
    repeated (attempts_at (text "SelectStack") (agent.on_select_stack stack_name) start)
      (select_stack stack_name (some true))

-- SetAllConfig, as often as the loop that repeats it tries from a moment on.
abbrev pub config_calls : Agent → Config → History → List Call
config_calls agent none start = []
config_calls agent (some []) start = []
config_calls agent (some (c ∷ cs)) start =
    let items = config_items (c ∷ cs) in
    repeated (attempts_at (text "SetAllConfig") (agent.on_set_all_config items) start)
      (set_all_config items)

abbrev pub operation_call : UpdateSpec → UpdateType → Call
operation_call spec up = run_up (up_request spec)
operation_call spec preview = run_preview (preview_request spec)
operation_call spec destroy = run_destroy (destroy_request spec)
operation_call spec refresh_only = run_refresh (refresh_request spec)

select-Varies : (agent : Agent) (n : Option Text) → Varies (select agent n) (select_calls agent n)
unfolding select
select-Varies agent none h a e = (h, return-Adds tt h a e)
select-Varies agent (some n) h a e =
    retried-Varies agent (text "SelectStack") (select_stack n (some true)) (agent.on_select_stack n)
      h a e

set_config-Varies :
    (agent : Agent) (c : Config) → Varies (set_config agent c) (config_calls agent c)
unfolding set_config
set_config-Varies agent none h a e = (h, return-Adds tt h a e)
set_config-Varies agent (some []) h a e = (h, return-Adds tt h a e)
set_config-Varies agent (some (c ∷ cs)) h a e =
    let items = config_items (c ∷ cs) in
    retried-Varies agent (text "SetAllConfig") (set_all_config items)
      (agent.on_set_all_config items) h a e

stream-Adds :
    {R : Type 0} (agent : Agent) (call : Call) (answer : History → Result Status (Stream R))
    (store : R → StreamResult → StreamResult)
    → Adds (stream agent call answer store) (call ∷ [])
unfolding stream
stream-Adds agent call answer store =
    chain-Adds _ _ (call ∷ []) [] (lift-Adds _ (call ∷ []) (perform-calls call)) (λ _.
      chain-Adds _ _ [] [] (lift-Adds _ [] (read-calls _))
        (λ reply. chain-Adds _ _ [] [] (grpc-Adds agent reply) (λ frames. or_panic-Adds _)))

connected-Adds : (b : Bool) → Adds (if b then return tt else throw (transient connection_failed)) []
unfolding return throw
connected-Adds true h a e = refl
connected-Adds false h a e = refl

lend_channel-Adds : (env : Env) (address : Text) → Adds (lend_channel env address) []
unfolding lend_channel
lend_channel-Adds env address =
    chain-Adds _ _ [] [] (lift-Adds _ [] (read-calls _)) (λ connected. connected-Adds connected)

run_operation-Adds :
    (agent : Agent) (spec : UpdateSpec) (t : UpdateType)
    → Adds (run_operation agent spec (some t)) (operation_call spec t ∷ [])
unfolding run_operation
run_operation-Adds agent spec up = stream-Adds agent _ _ _
run_operation-Adds agent spec preview = stream-Adds agent _ _ _
run_operation-Adds agent spec destroy = stream-Adds agent _ _ _
run_operation-Adds agent spec refresh_only = stream-Adds agent _ _ _

-- The calls of a whole run, newest first, with the moments from which SelectStack and SetAllConfig are
-- tried.
abbrev pub all_calls :
    Agent → UpdateSpec → UpdateType → Config → (selecting setting : History) → List Call
all_calls agent spec t config selecting setting =
    (((operation_call spec t ∷ []) ++ config_calls agent config setting)
      ++ select_calls agent spec.stack_name selecting)
    ++ (install ∷ [])

run-Varies :
    (agent : Agent) (spec : UpdateSpec) (t : UpdateType) (config : Config) (h : History)
    (r : StreamResult)
    → let run =
        lift (perform (agent_call install))
        >> (select agent spec.stack_name
            >> (set_config agent config >> run_operation agent spec (some t))) in
      (run h).0 ≡ ok r
      → (selecting : History) × (setting : History) × (calls (run h).1.effects
          ≡ all_calls agent spec t config selecting setting ++ calls h.effects)
run-Varies agent spec t config h r e =
    let op = operation_call spec t ∷ [] in
    let cfg = config_calls agent config in
    let sel = select_calls agent spec.stack_name in
    let last = run_operation agent spec (some t) in
    let first = lift (perform (agent_call install)) in
    let configure =
      chain-Varies (set_config agent config) (λ _. last) cfg (λ (_ : Unit {0}). op)
        (set_config-Varies agent config)
        (λ _. fixed-Varies last op (run_operation-Adds agent spec t)) in
    let choose =
      chain-Varies (select agent spec.stack_name) (λ _. set_config agent config >> last) sel
        (λ (i : History × Unit {0}). op ++ cfg i.0) (select-Varies agent spec.stack_name)
        (λ _. configure) in
    let ((x, (selecting, (setting, y))), q) =
      chain-Varies first (λ _. select agent spec.stack_name >> (set_config agent config >> last))
        (λ (_ : Unit {0}). install ∷ [])
        (λ (i : History × (History × Unit {0})). (op ++ cfg i.1.0) ++ sel i.0)
        (fixed-Varies first (install ∷ []) (lift-Adds _ (install ∷ []) (perform-calls install)))
        (λ _. choose) h r e in
    (selecting, setting, q)

-- A step that never returns a value.
abbrev pub Fails : {A : Type 0} → Op A → Type 0
Fails {A} m = (h : History) (a : A) → (m h).0 ≢ ok a

chain-Fails : {A B : Type 0} (m : Op A) (f : A → Op B) → ((a : A) → Fails (f a)) → Fails (m >>= f)
chain-Fails m f rest h b e = let (a, p, q) = continue-ok (m h).0 f (m h).1 e in rest a (m h).1 b q

untyped-Fails : (agent : Agent) (spec : UpdateSpec) → Fails (run_operation agent spec none)
unfolding run_operation throw
untyped-Fails agent spec h a e = absurd (ground arith)

-- The steps of `stream_update`, for the type of the Update.
abbrev steps : Env → Agent → Text → UpdateSpec → Config → Option UpdateType → Op StreamResult
steps env agent address spec config t =
    lend_channel env address
    >> (lift (perform (agent_call install))
        >> (select agent spec.stack_name
            >> (set_config agent config >> run_operation agent spec t)))

untyped_steps-Fails :
    (env : Env) (agent : Agent) (address : Text) (spec : UpdateSpec) (config : Config)
    → Fails (steps env agent address spec config none)
untyped_steps-Fails env agent address spec config = chain-Fails (lend_channel env address) _ (λ _.
    chain-Fails (lift (perform (agent_call install))) _ (λ _.
      chain-Fails (select agent spec.stack_name) _
        (λ _. chain-Fails (set_config agent config) _ (λ _. untyped-Fails agent spec))))

-- What a run that returned has called.
pub record Called (agent : Agent) (spec : UpdateSpec) (config : Config) (before after : List Call)
    : Type 0 where
  pub type_ : UpdateType
  pub typed : spec.update_type ≡ some type_
  pub selecting : History
  pub setting : History
  pub made : after ≡ all_calls agent spec type_ config selecting setting ++ before

steps-Called :
    (env : Env) (agent : Agent) (address : Text) (spec : UpdateSpec) (config : Config)
    (o : Option UpdateType) (h : History) (r : StreamResult)
    → spec.update_type ≡ o
    → (steps env agent address spec config o h).0 ≡ ok r
    → Called agent spec config
        (calls h.effects)
        (calls (steps env agent address spec config o h).1.effects)
unfolding continue
steps-Called env agent address spec config none h r p e =
    absurd (untyped_steps-Fails env agent address spec config h r e)
steps-Called env agent address spec config (some t) h r p e =
    let (tt', x, y) = continue-ok _ _ _ e in
    let (selecting, setting, q) = run-Varies agent spec t config _ r y in
    let first = lend_channel-Adds env address h tt' x in
    record {
      type_ = t;
      typed = p;
      selecting = selecting;
      setting = setting;
      made = rw x (q ∙ ap (λ z. all_calls agent spec t config selecting setting ++ z) first);
    }

-- A run of `stream_update` that returned is of an Update with a type, and it has made these calls
-- and no others: Install; SelectStack if a stack is named, and SetAllConfig if there is some config,
-- each once and once more after every pause of its retry loop; and the operation of the type; in this
-- order.
pub stream_update-calls :
    (env : Env) (agent : Agent) (address : Text) (update : Update) (config : Config) (h : History)
    (r : StreamResult)
    → (stream_update env agent address update config h).0 ≡ ok r
    → Called agent update.spec config
        (calls h.effects)
        (calls (stream_update env agent address update config h).1.effects)
unfolding stream_update
stream_update-calls env agent address update config h r e =
    steps-Called env agent address update.spec config update.spec.update_type h r refl e

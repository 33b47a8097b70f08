-- ===== src/Controllers/StreamUpdate/Drain.antt =====
-- src/operator/controllers/update.rs, the loop over a stream in `stream_update`: what it keeps.
use pulumi_rs_kube_operator.Base.{
  Option, none, some, and_then, or_else, [], ◌∷◌, ok, err, ◌≡◌, refl,
}
use pulumi_rs_kube_operator.Core.Lock.{Status}
use pulumi_rs_kube_operator.Reconcile.CheckUpdate.{truncate_message}
use pulumi_rs_kube_operator.Controllers.Protocol.{event_response, result, UpResult, OperationResult}
use pulumi_rs_kube_operator.Controllers.StreamUpdate.{
  Stream, StreamResult, default_result, drain, store_up, store_result,
}

module _ {R : Type 0} where
  -- The first error of a stream.
  abbrev pub first_error : Stream R → Option Status
  first_error [] = none
  first_error (ok frame ∷ rest) = first_error rest
  first_error (err e ∷ rest) = some e

  -- The last result that a stream has before its first error.
  abbrev pub last_result : Stream R → Option R
  last_result [] = none
  last_result (err e ∷ rest) = none
  last_result (ok none ∷ rest) = last_result rest
  last_result (ok (some event_response) ∷ rest) = last_result rest
  last_result (ok (some (result r)) ∷ rest) = some (or_else (last_result rest) r)

  abbrev pub keep : (R → StreamResult → StreamResult) → Option R → StreamResult → StreamResult
  keep store none r = r
  keep store (some res) r = store res r

-- The result once the stream ended, or at an error, whose message is cut short.
abbrev pub ended : Option Status → StreamResult → Option StreamResult
ended none r = some r
ended (some e) r =
    and_then (truncate_message e.status_message) (λ m. some (record r { error = some m }))

module _ {R : Type 0} (store : R → StreamResult → StreamResult)
    (overwrites : (a b : R) (r : StreamResult) → store b (store a r) ≡ store b r) where
  keep-store :
      (o : Option R) (res : R) (r : StreamResult)
      → keep store o (store res r) ≡ store (or_else o res) r
  keep-store none res r = refl
  keep-store (some b) res r = overwrites res b r

  drain-ended :
      (s : Stream R) (r : StreamResult)
      → drain store s r ≡ ended (first_error s) (keep store (last_result s) r)
  unfolding drain
  drain-ended [] r = refl
  drain-ended (err e ∷ rest) r = refl
  drain-ended (ok none ∷ rest) r = drain-ended rest r
  drain-ended (ok (some event_response) ∷ rest) r = drain-ended rest r
  drain-ended (ok (some (result res)) ∷ rest) r =
      rw (drain-ended rest (store res r), keep-store (last_result rest) res r) refl

store_up-overwrites : (a b : UpResult) (r : StreamResult) → store_up b (store_up a r) ≡ store_up b r
unfolding store_up
store_up-overwrites a b r = refl

store_result-overwrites :
    (a b : OperationResult) (r : StreamResult)
    → store_result b (store_result a r) ≡ store_result b r
unfolding store_result
store_result-overwrites a b r = refl

-- What the loop over a stream comes to is the last result before the first error, with that error's
-- message cut short, if there is one; a stream without an error is a success, even if it had no
-- result.
pub drain-Summary :
    (ups : Stream UpResult) (others : Stream OperationResult)
    → (drain store_up ups default_result
        ≡ ended (first_error ups) (keep store_up (last_result ups) default_result))
      × (drain store_result others default_result
          ≡ ended (first_error others) (keep store_result (last_result others) default_result))
drain-Summary ups others = (
  drain-ended store_up store_up-overwrites ups default_result,
  drain-ended store_result store_result-overwrites others default_result,
)

-- ===== src/Webhook.antt =====
-- src/operator/webhook/mod.rs: the receiver of GitHub's webhooks. The keyed hash, the hexadecimal
-- digits and hyper's requests are others'; a request is what the handler reads of it.
pub mod Bits
pub mod Compare
pub mod Authentic
use Prim.Native.Nat.{bit_or, bit_xor}
use pulumi_rs_kube_operator.Base.{
  ℕ, Bool, true, false, not, Option, none, some, List, [], ◌∷◌, Text, text, text_eq, strip_prefix,
  length, ◌==◌, if◌then◌else◌,
}
use pulumi_rs_kube_operator.Controllers.FileServer.{Bytes, HttpResponse}

-- `Hmac::<Sha256>::new_from_slice` with the digest of a payload, and `hex::encode`.
pub record Mac : Type 0 where
  pub digest : (secret payload : Bytes) → Option Bytes
  pub hex : Bytes → Text

-- The loop over the pairs, up to the end of the shorter list.
unfoldable pub difference : (diff : ℕ) → Bytes → Bytes → ℕ
difference diff [] ys = diff
difference diff (x ∷ xs) [] = diff
difference diff (x ∷ xs) (y ∷ ys) = difference (bit_or diff (bit_xor x y)) xs ys

unfoldable pub constant_time_eq : Bytes → Bytes → Bool
unfolding difference
constant_time_eq a b = if not (length a == length b) then false else difference 0 a b == 0

-- The signature is checked only if a secret is configured.
unfoldable pub validate_signature : Mac → Option Text → (payload : Bytes) → Option Text → Bool
unfolding constant_time_eq
validate_signature mac none payload signature = true
validate_signature mac (some secret) payload none = false
validate_signature mac (some secret) payload (some sig) = elim (strip_prefix (text "sha256=") sig) [
  | none ↦ false
  | some expected_hex ↦ elim (mac.digest secret payload) [
    | none ↦ false
    | some d ↦ constant_time_eq (mac.hex d) expected_hex
  ]
]

-- A body that is too long, or that breaks off, is none.
pub record Request : Type 0 where
  pub path : Text
  pub signature : Option Text
  pub event_type : Option Text
  pub body : Option Bytes

unfoldable pub error_response : ℕ → Text → HttpResponse
error_response status message = record { status = status; body = message }

abbrev pub answer : Text → HttpResponse
answer message = record { status = 200; body = message }

-- The answer to an event whose signature is valid.
unfoldable pub handle_event : Option Text → HttpResponse
unfolding error_response
handle_event none = error_response 400 (text "missing X-GitHub-Event")
handle_event (some event_type) =
    if text_eq event_type (text "pull_request")
    then answer (text "{\"status\":\"accepted\"}")
    else if text_eq event_type (text "push")
    then answer (text "{\"status\":\"accepted\"}")
    else answer (text "{\"status\":\"ignored\"}")

unfoldable pub handle_payload :
    Mac → Option Text → (signature event_type : Option Text) → Option Bytes → HttpResponse
unfolding validate_signature error_response handle_event
handle_payload mac secret signature event_type none = error_response 413 (text "body too large")
handle_payload mac secret signature event_type (some body) =
    if not (validate_signature mac secret body signature)
    then error_response 403 (text "invalid signature")
    else handle_event event_type

unfoldable pub handle_webhook : Mac → Option Text → Request → HttpResponse
unfolding handle_payload error_response
handle_webhook mac secret req =
    if text_eq req.path (text "/webhook")
    then handle_payload mac secret req.signature req.event_type req.body
    else if text_eq req.path (text "/healthz")
    then answer (text "ok")
    else error_response 404 (text "not found")

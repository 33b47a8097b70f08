-- ===== src/Webhook/Authentic.antt =====
-- src/operator/webhook/mod.rs, `handle_webhook`: which payloads are let through.
use pulumi_rs_kube_operator.Base.{
  true, Option, none, some, Text, text, strip_prefix, strip_prefix-append, strip_prefix_sound, ◌++◌,
  ◌≡◌, ◌↔◌, refl, text_eq, text_eq_self, arith, Option-cases, Bool-cases, inl, inr,
}
use pulumi_rs_kube_operator.Controllers.FileServer.{Bytes}
use pulumi_rs_kube_operator.Webhook.{
  Mac, validate_signature, error_response, handle_payload, Request, handle_webhook,
}
use pulumi_rs_kube_operator.Webhook.Compare.{constant_time_eq_iff}

-- The signature is the digest of the payload under the secret, as it is written in the header.
pub record Signed (mac : Mac) (secret payload : Bytes) (signature : Option Text) : Type 0 where
  pub bytes : Bytes
  pub digest : mac.digest secret payload ≡ some bytes
  pub written : signature ≡ some (text "sha256=" ++ mac.hex bytes)

validate_signature_sound :
    (mac : Mac) (secret payload : Bytes) (signature : Option Text)
    → validate_signature mac (some secret) payload signature ≡ true
    → Signed mac secret payload signature
unfolding validate_signature
validate_signature_sound mac secret payload none e = absurd (ground arith)
validate_signature_sound mac secret payload (some sig) e =
    elim (Option-cases (strip_prefix (text "sha256=") sig)) [
      | inl n ↦ let e' = rw (validate_signature, n) at e in absurd (ground arith)
      | inr (hex, s) ↦ elim (Option-cases (mac.digest secret payload)) [
        | inl n ↦ let e' = rw (validate_signature, s, n) at e in absurd (ground arith)
        | inr (d, p) ↦
            let e' = rw (validate_signature, s, p) at e in
            record {
              bytes = d;
              digest = p;
              written =
                  rw
                    (
                      strip_prefix_sound (text "sha256=") sig hex s,
                      (constant_time_eq_iff (mac.hex d) hex).0 e',
                    )
                    refl;
            }
      ]
    ]

validate_signature_complete :
    (mac : Mac) (secret payload : Bytes) (signature : Option Text)
    → Signed mac secret payload signature
    → validate_signature mac (some secret) payload signature ≡ true
unfolding validate_signature
validate_signature_complete mac secret payload signature s =
    rw
      (
        s.written,
        validate_signature,
        strip_prefix-append (text "sha256=") (mac.hex s.bytes),
        s.digest,
      )
      ((constant_time_eq_iff (mac.hex s.bytes) (mac.hex s.bytes)).1 refl)

-- With a secret configured, `validate_signature` accepts exactly the signature of the payload.
pub validate_signature_iff :
    (mac : Mac) (secret payload : Bytes) (signature : Option Text)
    → validate_signature mac (some secret) payload signature ≡ true
      ↔ Signed mac secret payload signature
validate_signature_iff mac secret payload signature = (
  validate_signature_sound mac secret payload signature,
  validate_signature_complete mac secret payload signature,
)

payload-Signed :
    (mac : Mac) (secret : Bytes) (signature event_type : Option Text) (body : Option Bytes)
    → (handle_payload mac (some secret) signature event_type body).status ≡ 200
    → (payload : Bytes) × (body ≡ some payload) × Signed mac secret payload signature
unfolding handle_payload error_response
payload-Signed mac secret signature event_type none e = absurd (ground arith)
payload-Signed mac secret signature event_type (some payload) e =
    elim (Bool-cases (validate_signature mac (some secret) payload signature)) [
      | inl v ↦ (payload, refl, validate_signature_sound mac secret payload signature v)
      | inr v ↦ let e' = rw (handle_payload, v) at e in absurd (ground arith)
    ]

-- With a secret configured, a request to the webhook is answered by 200 only if its body was read in
-- whole and its signature is the digest of the body under the secret.
pub handle_webhook-Signed :
    (mac : Mac) (secret : Bytes) (req : Request)
    → req.path ≡ text "/webhook"
    → (handle_webhook mac (some secret) req).status ≡ 200
    → (payload : Bytes) × (req.body ≡ some payload) × Signed mac secret payload req.signature
unfolding handle_webhook
handle_webhook-Signed mac secret req at_webhook e =
    payload-Signed mac secret req.signature req.event_type req.body
      (rw (handle_webhook, is_webhook) at e)
  where
    is_webhook : text_eq req.path (text "/webhook") ≡ true
    is_webhook = rw at_webhook (text_eq_self (text "/webhook"))

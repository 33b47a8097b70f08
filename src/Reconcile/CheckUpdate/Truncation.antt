-- ===== src/Reconcile/CheckUpdate/Truncation.antt =====
-- src/operator/controllers/update.rs, `truncate_message`: when it returns, and the bound it keeps.
use pulumi_rs_kube_operator.Base.{
  ◌≤◌, ◌<◌, false, Option, none, some, and_then, ◌++◌, Text, text, length, length-append,
  length-take-le, take, leb, leb→le, leb_false→lt, lt→leb_false, some≢none, arith, ◌≡◌, ◌↔◌, refl,
  if_elim,
}
use pulumi_rs_kube_operator.Reconcile.CheckUpdate.{
  truncate_message, slice_to, is_char_boundary, max_message_len,
}

-- A message is given.
abbrev pub Bounded : Option Text → Type 0
Bounded none = Unit {0}
Bounded (some s) = length s ≤ max_message_len

-- A message that `truncate_message` returns has at most 100 bytes.
pub truncate_message-Bounded : (msg : Text) → Bounded (truncate_message msg)
unfolding truncate_message slice_to text
truncate_message-Bounded msg =
    if_elim Bounded (leb (length msg) max_message_len) (λ l. leb→le _ _ l)
      (λ _.
        if_elim (λ s. Bounded (and_then s (λ t. some (t ++ text "...")))) (is_char_boundary 97 msg)
          (λ _. omega (arith, length-append (take 97 msg) (text "..."), length-take-le 97 msg))
          (λ _. tt))

-- A long message whose cut would fall inside a character.
abbrev pub Panics : Text → Type 0
Panics msg = (max_message_len < length msg) × (is_char_boundary 97 msg ≡ false)

-- `truncate_message` panics exactly on messages of more than 100 bytes whose byte at index 97 is
-- not at the start of a character.
pub truncate_message-Panics : (msg : Text) → truncate_message msg ≡ none ↔ Panics msg
unfolding truncate_message slice_to
truncate_message-Panics msg = (
  if_elim (λ r. r ≡ none → Panics msg) (leb (length msg) max_message_len)
      (λ _ e. absurd (some≢none _ e))
      (λ g.
        if_elim (λ s. and_then s (λ t. some (t ++ text "...")) ≡ none → Panics msg)
          (is_char_boundary 97 msg) (λ _ e. absurd (some≢none _ e))
          (λ b _. (leb_false→lt _ _ g, b))),
  λ (l, b). rw (lt→leb_false _ _ l, b) refl,
)

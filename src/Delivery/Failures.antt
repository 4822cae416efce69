-- ===== src/Delivery/Failures.antt =====
-- src/core/stream-delivery.js: the error of a failed delivery, and what is done because of it.
use mossbridge.Prelude.{
  ◌==◌, ℕ, Bool, false, ◌||◌, Option, some, List, [], ◌∷◌, Text, eq_text, includes, codes, any,
  or_text, if◌then◌else◌,
}

-- The whole numbers; `negsuc n` is the number below `- n`.
pub data ℤ : Type 0 where
  pos : ℕ → ℤ
  negsuc : ℕ → ℤ

-- The fields of an `Error` that the delivery reads, missing texts empty. `ret` and `errcode` are none
-- where they are not numbers.
pub record Failure : Type 0 where
  pub message : Text
  pub name : Text
  pub cause_name : Text
  pub cause_code : Text
  pub code : Text
  pub ret : Option ℤ
  pub errcode : Option ℤ
  pub api_label : Text
  pub api_endpoint : Text
  pub api_timeout_ms : Option ℕ

-- `code === -2`.
abbrev pub is_minus_two : Option ℤ → Bool
is_minus_two (some (negsuc n)) = n == 1
is_minus_two _ = false

unfoldable pub is_system_reply_context_failure : Failure → Bool
is_system_reply_context_failure e =
    is_minus_two e.ret
    || is_minus_two e.errcode
    || includes e.message (codes "sendMessage ret=-2")
    || includes e.message (codes "errcode=-2")

abbrev pub transient_codes : List Text
transient_codes =
    codes "und_err_connect_timeout"
    ∷ codes "econnreset"
    ∷ codes "etimedout"
    ∷ codes "eai_again"
    ∷ []

abbrev pub transient_words : List Text
transient_words =
    codes "fetch failed"
    ∷ codes "operation was aborted"
    ∷ codes "network"
    ∷ codes "socket"
    ∷ codes "timeout"
    ∷ codes "timed out"
    ∷ codes "econnreset"
    ∷ codes "etimedout"
    ∷ codes "eai_again"
    ∷ []

-- `lower` is `toLowerCase`.
unfoldable pub is_transient_delivery_failure : (Text → Text) → Failure → Bool
is_transient_delivery_failure lower e =
    eq_text (lower e.name) (codes "aborterror")
    || any (eq_text (lower (or_text e.cause_code e.code))) transient_codes
    || any (includes (lower e.message)) transient_words

unfoldable pub should_defer_reply_after_delivery_failure : (Text → Text) → Failure → Bool
should_defer_reply_after_delivery_failure lower e =
    is_system_reply_context_failure e || is_transient_delivery_failure lower e

pub data DeferReason : Type 0 where
  context_token_rejected transient_delivery_failure delivery_failed : DeferReason

unfoldable pub resolve_delivery_defer_reason : (Text → Text) → Failure → DeferReason
resolve_delivery_defer_reason lower e =
    if is_system_reply_context_failure e
    then context_token_rejected
    else if is_transient_delivery_failure lower e
    then transient_delivery_failure
    else delivery_failed

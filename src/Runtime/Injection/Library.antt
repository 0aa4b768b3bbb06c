-- ===== src/Runtime/Injection/Library.antt =====
-- internal/runtime/injection/library.go: the named errors.
use staging_platform.Base.{String, Option, none, some, str_eq, if◌then◌else◌}
use staging_platform.Base.Int.{ℤ, pos}
use staging_platform.Json.{Fields, object, text, end, field}

pub record ResponseOverride : Type 0 where
  pub status : ℤ
  pub error : String
  pub latency_ms : ℤ
  pub body : Option Fields

abbrev card : String → String → String → Fields
card code decline_code message = field "type" (text "card_error") (
    field "code" (text code)
      (field "decline_code" (text decline_code) (field "message" (text message) end)))

abbrev api : String → String → String → Fields
api type code message =
    field "type" (text type) (field "code" (text code) (field "message" (text message) end))

abbrev named : ℤ → Fields → ResponseOverride
named status error = record {
  status = status;
  error = "";
  latency_ms = pos 0;
  body = some (field "error" (object error) end);
}

unfoldable pub named_library : String → Option ResponseOverride
named_library name =
    if str_eq name "stripe.card_declined"
    then some (named (pos 402) (card "card_declined" "generic_decline" "Your card was declined."))
    else if str_eq name "stripe.insufficient_funds"
    then some (
        named (pos 402)
          (card "card_declined" "insufficient_funds" "Your card has insufficient funds."))
    else if str_eq name "stripe.expired_card"
    then some (named (pos 402) (card "expired_card" "expired_card" "Your card has expired."))
    else if str_eq name "stripe.authentication_error"
    then some (
        named (pos 401)
          (api "invalid_request_error" "authentication_error" "Invalid API key provided."))
    else if str_eq name "stripe.rate_limit"
    then some (
        named (pos 429)
          (api "rate_limit_error" "rate_limit" "Too many requests hit the API too quickly."))
    else if str_eq name "stripe.api_connection_error"
    then some (
        named (pos 503) (
          api "api_connection_error" "api_connection_error"
            "An error occurred while connecting to Stripe."))
    else none

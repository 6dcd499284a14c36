-- ===== src/Httpapi/Webhook.antt =====
-- internal/httpapi/twilio.go: POST /webhooks/twilio. W is the state that the processor changes.
pub mod Laws
use booknow_mcp_service.Base.{
  ℕ, String, List, [], ◌∷◌, Option, none, some, Bool, true, false, not, ltb, byte_len, str_eq, Err,
  if◌then◌else◌,
}
use booknow_mcp_service.Httpapi.Router.{Response, plain_reply}
use booknow_mcp_service.Twilio.Form.{Form}
use booknow_mcp_service.Twilio.Inbound.{InboundMessage, parse_inbound, valid_message_sid}
use booknow_mcp_service.Twilio.Signature.{Crypto, Validator, validate_form}

abbrev pub max_body_bytes : ℕ
max_body_bytes = 65536

abbrev pub form_type : String
form_type = "application/x-www-form-urlencoded"

abbrev pub empty_twiml : String
empty_twiml = "<?xml version=\"1.0\" encoding=\"UTF-8\"?><Response></Response>"

-- A request: its headers, the bytes that its body gives and whether reading them breaks off.
pub record Post : Type 0 where
  pub content_type : String
  pub signature_header : String
  pub content : String
  pub breaks : Bool

-- `TwilioProcessor`: the error, if any, and the state after it.
abbrev pub Processor : Type 0 → Type 0
Processor W = InboundMessage → W → Option Err × W

-- `TwilioConfig` with the libraries that the handler calls: mime.ParseMediaType and url.ParseQuery.
pub record Hook (W : Type 0) : Type 0 where
  pub crypto : Crypto
  pub validator : Validator
  pub account_sid : String
  pub processor : Option (Processor W)
  pub parse_media : String → Option String
  pub parse_query : String → Option Form

-- `writeTwiML`
abbrev pub twiml_reply : Response
twiml_reply = record {
  status = 200;
  body = empty_twiml;
  headers = ("Content-Type", "text/xml; charset=utf-8") ∷ ("Cache-Control", "no-store") ∷ [];
}

abbrev pub processed : {W : Type 0} → Option Err × W → Response × W
processed (none, w) = (twiml_reply, w)
processed (some e, w) = (plain_reply 500 "internal error\n", w)

-- The handler once the message is authentic.
abbrev pub handled : {W : Type 0} → Option (Processor W) → InboundMessage → W → Response × W
handled none msg w = (twiml_reply, w)
handled (some process) msg w = processed (process msg w)

-- The message SID, where it is safe to log.
abbrev pub logged_sid : InboundMessage → Option String
logged_sid msg = if valid_message_sid msg.message_sid then some msg.message_sid else none

abbrev pub is_form_type : Option String → Bool
is_form_type none = false
is_form_type (some media) = str_eq media form_type

abbrev pub for_account : {W : Type 0} → Hook W → InboundMessage → W → Response × W
for_account hook msg w =
    if str_eq msg.account_sid hook.account_sid
    then handled hook.processor msg w
    else (plain_reply 403 "forbidden\n", w)

abbrev pub for_form : {W : Type 0} → Hook W → Post → Option Form → W → Response × W
for_form hook r none w = (plain_reply 403 "forbidden\n", w)
for_form hook r (some form) w =
    if validate_form hook.crypto hook.validator r.signature_header form
    then for_account hook (parse_inbound form) w
    else (plain_reply 403 "forbidden\n", w)

-- `twilioWebhook`
unfoldable pub twilio_webhook : {W : Type 0} → Hook W → Post → W → Response × W
twilio_webhook hook r w =
    if not (is_form_type (hook.parse_media r.content_type))
    then (plain_reply 415 "unsupported media type\n", w)
    else if ltb max_body_bytes (byte_len r.content)
    then (plain_reply 413 "request too large\n", w)
    else if r.breaks
    then (plain_reply 400 "bad request\n", w)
    else for_form hook r (hook.parse_query r.content) w

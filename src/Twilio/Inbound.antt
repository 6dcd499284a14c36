-- ===== src/Twilio/Inbound.antt =====
-- internal/integration/twilio/inbound.go.
use booknow_mcp_service.Base.{String, Bool, ◌||◌, trim_space, trim_prefix, sid_shape}
use booknow_mcp_service.Twilio.Form.{Form, get}

pub record InboundMessage : Type 0 where
  pub message_sid : String
  pub account_sid : String
  -- `From` and `To`
  pub sender : String
  pub receiver : String
  pub body : String
  pub button_payload : String
  pub button_text : String

abbrev pub whatsapp_prefix : String
whatsapp_prefix = "whatsapp:"

-- `field` of `ParseInbound`
abbrev pub field_of : Form → String → String
field_of form name = trim_space (get name form)

-- `ParseInbound`
unfoldable pub parse_inbound : Form → InboundMessage
parse_inbound form = record {
  message_sid = field_of form "MessageSid";
  account_sid = field_of form "AccountSid";
  sender = trim_prefix (field_of form "From") whatsapp_prefix;
  receiver = trim_prefix (field_of form "To") whatsapp_prefix;
  body = field_of form "Body";
  button_payload = field_of form "ButtonPayload";
  button_text = field_of form "ButtonText";
}

-- `ValidMessageSID`
unfoldable pub valid_message_sid : String → Bool
valid_message_sid sid = sid_shape "SM" sid || sid_shape "MM" sid

-- `ValidAccountSID`
unfoldable pub valid_account_sid : String → Bool
valid_account_sid sid = sid_shape "AC" sid

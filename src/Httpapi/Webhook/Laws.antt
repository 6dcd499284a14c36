-- ===== src/Httpapi/Webhook/Laws.antt =====
-- internal/httpapi/twilio.go: only authentic messages reach the processor.
use booknow_mcp_service.Base.{ℕ, ◌≤◌, some, true, false, byte_len, ◌≡◌, ◌⊎◌}
use booknow_mcp_service.Httpapi.Router.{Response}
use booknow_mcp_service.Twilio.Form.{Form}
use booknow_mcp_service.Twilio.Inbound.{parse_inbound}
use booknow_mcp_service.Twilio.Signature.{validate_form}
use booknow_mcp_service.Httpapi.Webhook.{max_body_bytes, form_type, Post, Hook, handled}

-- What makes a request authentic, and the message that it carries.
pub record IsAuthentic {W : Type 0} (hook : Hook W) (r : Post) (form : Form) : Type 0 where
  pub media : hook.parse_media r.content_type ≡ some form_type
  pub bounded : byte_len r.content ≤ max_body_bytes
  pub whole : r.breaks ≡ false
  pub parsed : hook.parse_query r.content ≡ some form
  pub signed : validate_form hook.crypto hook.validator r.signature_header form ≡ true
  pub own_account : (parse_inbound form).account_sid ≡ hook.account_sid

-- The statuses of a refusal.
abbrev pub IsRefusal : ℕ → Type 0
IsRefusal status = (status ≡ 415) ⊎ (status ≡ 413) ⊎ (status ≡ 400) ⊎ (status ≡ 403)

-- An answer: the processor's to an authentic message, or a refusal that changes no state.
abbrev pub IsSettled : {W : Type 0} → Hook W → Post → W → Response × W → Type 0
IsSettled hook r w answer =
    ((form : Form) × IsAuthentic hook r form
      × (answer ≡ handled hook.processor (parse_inbound form) w))
    ⊎ (((form : Form) → IsAuthentic hook r form → ⊥) × IsRefusal (answer.0.status) × (answer.1 ≡ w))

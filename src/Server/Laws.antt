-- ===== src/Server/Laws.antt =====
-- cmd/api-server/main.go: a configuration that loads never fails to build its webhook.
use booknow_mcp_service.Base.{
  String, Char, code, is_space, trim_left, trim_right, trim_space, Option, none, some, true, false,
  str_eq, eq_iff, ◌≡◌, refl, sym, ap, ◌∙◌, ◌⊎◌, inl, inr, arith, Bool-cases, ok, if◌then◌else◌,
}
use booknow_mcp_service.Config.Reads.{valid}
use booknow_mcp_service.Config.Origins.{Url, Texts}
use booknow_mcp_service.Config.Load.{
  Env, Config, TwilioSettings, no_twilio, app_env, twilio_of, twilio_settings, load_twilio, load,
}
use booknow_mcp_service.Config.Laws.{load-load_twilio}
use booknow_mcp_service.Twilio.Signature.{absolute, new_validator}
use booknow_mcp_service.Server.{Webhook, start_twilio}

-- No space in front.
abbrev IsSolid : String → Type 0
IsSolid String.[] = Unit
IsSolid (String.◌∷◌ c s) = is_space (code c) ≡ false

trim_left-IsSolid : (s : String) → IsSolid (trim_left s)
unfolding trim_left
trim_left-IsSolid String.[] = tt
trim_left-IsSolid (String.◌∷◌ c s) = elim (Bool-cases (is_space (code c))) [
  | inl blank ↦ rw blank (trim_left-IsSolid s)
  | inr solid ↦ rw solid solid
]

trim_left_solid : (s : String) → IsSolid s → trim_left s ≡ s
unfolding trim_left
trim_left_solid String.[] h = refl
trim_left_solid (String.◌∷◌ c s) h = rw h refl

trim_right_solid :
    (c : Char) (s : String)
    → is_space (code c) ≡ false
    → trim_right (String.◌∷◌ c s) ≡ String.◌∷◌ c (trim_right s)
unfolding trim_right
trim_right_solid c s h = ground arith

no_text : {c : Char} {s : String} → String.◌∷◌ c s ≡ "" → ⊥
no_text h = cc

solid_stays : (s : String) → IsSolid s → trim_right (trim_left s) ≡ "" → s ≡ ""
solid_stays String.[] h e = refl
solid_stays (String.◌∷◌ c s) h e = absurd (
    no_text (
      sym (trim_right_solid c s h)
      ∙ (ap trim_right (sym (trim_left_solid (String.◌∷◌ c s) h)) ∙ e)))

trim_right-IsSolid : (s : String) → IsSolid s → IsSolid (trim_right s)
unfolding trim_right
trim_right-IsSolid String.[] h = tt
trim_right-IsSolid (String.◌∷◌ c s) h = rw (trim_right_solid c s h) h

-- A text that is trimmed and not empty stays so when it is trimmed again.
pub trim_space_twice : (s : String) → trim_space (trim_space s) ≡ "" → trim_space s ≡ ""
unfolding trim_space
trim_space_twice s e =
    solid_stays (trim_right (trim_left s)) (trim_right-IsSolid (trim_left s) (trim_left-IsSolid s))
      e

-- The texts of the webhook in the environment.
abbrev pub trimmed : Env → TwilioSettings
trimmed e = record {
  auth_token = trim_space (e.getenv "TWILIO_AUTH_TOKEN");
  webhook_url = trim_space (e.getenv "TWILIO_WEBHOOK_URL");
  account_sid = trim_space (e.getenv "TWILIO_ACCOUNT_SID");
}

-- The webhook that settings ask for.
abbrev pub webhook_of : TwilioSettings → Option Webhook
webhook_of t =
    if str_eq t.auth_token ""
    then none
    else some (record {
      validator = record { auth_token = t.auth_token; webhook_url = t.webhook_url };
      account_sid = t.account_sid;
    })

-- The settings that `loadTwilio` accepts: none, or a token and an absolute URL.
abbrev IsLoaded : Texts → TwilioSettings → TwilioSettings → Type 0
IsLoaded texts t s =
    (s ≡ no_twilio)
    ⊎ ((s ≡ t)
        × (str_eq t.auth_token "" ≡ false)
        × (absolute (texts.parse_url t.webhook_url) ≡ true))

twilio_of-eq-valid :
    (env : String) (t : TwilioSettings) (parsed : Option Url) (s : TwilioSettings)
    → twilio_of env t parsed ≡ valid s
    → (s ≡ t) × (absolute parsed ≡ true)
unfolding twilio_of
twilio_of-eq-valid env t none s h = cc
twilio_of-eq-valid env t (some u) s h = ground arith

twilio_settings-IsLoaded :
    (texts : Texts) (env : String) (t s : TwilioSettings)
    → twilio_settings texts env t ≡ valid s
    → IsLoaded texts t s
unfolding twilio_settings
twilio_settings-IsLoaded texts env t s h =
    ground (arith, twilio_of-eq-valid env t (texts.parse_url t.webhook_url) s)

unset : (s : String) → s ≡ "" → str_eq s "" ≡ false → ⊥
unset s h k = ground (arith, eq_iff s "")

trimmed-again :
    (s t : String) → s ≡ trim_space t → str_eq s "" ≡ false → str_eq (trim_space s) "" ≡ false
trimmed-again s t h k = elim (Bool-cases (str_eq (trim_space s) "")) [
  | inl blank ↦
      let twice : trim_space (trim_space t) ≡ "" =
        ap trim_space (sym h) ∙ (eq_iff (trim_space s) "").0 blank in
      absurd (unset s (h ∙ trim_space_twice t twice) k)
  | inr filled ↦ filled
]

start_of-IsLoaded :
    (e : Env) (c : Config)
    → IsLoaded e.texts (trimmed e) c.twilio
    → start_twilio e.texts c ≡ ok (webhook_of c.twilio)
unfolding start_twilio new_validator
start_of-IsLoaded e c (inl same) =
    let blank : str_eq c.twilio.auth_token "" ≡ true = ap (λ t. str_eq t.auth_token "") same in
    rw blank refl
start_of-IsLoaded e c (inr (same, filled, absolute_url)) =
    let set : str_eq c.twilio.auth_token "" ≡ false =
      ap (λ t. str_eq t.auth_token "") same ∙ filled in
    let kept : str_eq (trim_space c.twilio.auth_token) "" ≡ false =
      trimmed-again c.twilio.auth_token (e.getenv "TWILIO_AUTH_TOKEN") (ap (λ t. t.auth_token) same)
        set in
    let parses : absolute (e.texts.parse_url c.twilio.webhook_url) ≡ true =
      ap (λ t. absolute (e.texts.parse_url t.webhook_url)) same ∙ absolute_url in
    rw (set, kept, parses) refl

-- A configuration that loads always builds its webhook: NewValidator accepts the token and the URL that
-- loadTwilio accepted, and the webhook is left out exactly where no token is set.
pub load-start_twilio :
    (e : Env) (c : Config) → load e ≡ valid c → start_twilio e.texts c ≡ ok (webhook_of c.twilio)
unfolding load_twilio
load-start_twilio e c h =
    start_of-IsLoaded e c
      (twilio_settings-IsLoaded e.texts (app_env e) (trimmed e) c.twilio (load-load_twilio e c h))

-- ===== src/Twilio/Form.antt =====
-- net/url's Values as the webhook uses them: the values of each key, in order.
use booknow_mcp_service.Base.{String, List, [], ◌∷◌, map, str_eq, if◌then◌else◌}

-- `url.Values`: a Go map, so a list of entries whose order means nothing.
abbrev pub Form : Type 0
Form = List (String × List String)

-- `form[key]`
unfoldable pub values : String → Form → List String
values key [] = []
values key ((k, vs) ∷ form) = if str_eq k key then vs else values key form

abbrev first : List String → String
first [] = ""
first (v ∷ vs) = v

-- `form.Get(key)`
unfoldable pub get : String → Form → String
get key form = first (values key form)

-- `maps.Keys(form)`
abbrev pub form_keys : Form → List String
form_keys form = map (λ e. e.0) form

-- ===== src/Settings/Admin.antt =====
-- routstr/core/admin.py: who may call the admin interface, and its calls on the settings.
pub mod Laws
use routstr_core.Prelude.{
  Bool, true, false, ◌&&◌, Option, none, some, List, [], ◌∷◌, String, str_eq, str_strip, non_empty,
  leb, if◌then◌else◌, Result, ok, err, Exc, http, Exec, raise_if, ◌>>=◌, ◌>>◌, pure,
}
use Prim.Native.String.{count}
use routstr_core.Settings.Service.{Value, text, Dict, Service, truthy_item, set_field, update}

abbrev same_text : Option Value → String → Bool
same_text (some (text t)) s = str_eq t s
same_text _ s = false

abbrev matches_cookie : Option String → Option Value → Bool
matches_cookie none password = false
matches_cookie (some cookie) password = non_empty cookie && same_text password cookie

-- the cookie `admin_password` of a request, and the settings
unfoldable pub is_admin_authenticated : Option String → Dict → Bool
is_admin_authenticated cookie settings = matches_cookie cookie (settings "admin_password")

unfoldable pub require_admin_api : Option String → Dict → Result (Unit {0})
require_admin_api cookie settings =
    if matches_cookie cookie (settings "admin_password")
    then ok tt
    else err (http 403 "Unauthorized")

-- a secret that is set is named, not shown
abbrev redacted : Option Value → Option Value
redacted none = none
redacted (some v) = if truthy_item (some v) then some (text "[REDACTED]") else some (text "")

abbrev redact_field : String → Dict → Dict
redact_field k d j = if str_eq k j then redacted (d j) else d j

unfoldable pub get_settings : Dict → Dict
get_settings settings =
    redact_field "nsec" (redact_field "admin_password" (redact_field "upstream_api_key" settings))

abbrev answer_of : Result Dict × Service → Result Dict × Service
answer_of (ok d, s) = (ok (get_settings d), s)
answer_of (err e, s) = (err e, s)

unfoldable pub update_settings : (Dict → Option Dict) → Dict → Exec Service Dict
unfolding get_settings update
update_settings validate partial s = answer_of (update validate partial s)

abbrev pub only : String → Value → Dict
only k v j = if str_eq k j then some v else none

-- the first password, which needs no login
unfoldable pub initial_setup : (Dict → Option Dict) → String → Exec Service (Unit {0})
unfolding update
initial_setup validate password s =
    (do
      raise_if (truthy_item (s.live "admin_password")) (http 409 "Admin password already set")
      raise_if (leb (count (str_strip password)) 7)
          (http 400 "Password must be at least 8 characters")
      update validate (only "admin_password" (text (str_strip password)))
      pure tt)
      s

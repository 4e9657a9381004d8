-- ===== src/Tests/Config.antt =====
-- Settings that are set up, updated and read again; and the headers and routes of a request.
use routstr_core.Prelude.{
  ◌≡◌, refl, ◌≢◌, true, false, Option, none, some, [], ◌∷◌, String, str_eq, arith, pos, ok, err,
  http, if◌then◌else◌, eq_iff, ◌≤◌, str_strip,
}
use Prim.Native.String.{count}
use routstr_core.Floats.Thousandths.{thousandths}
use routstr_core.Settings.Service.{
  Value, text, flag, Dict, Service, truthy_item, initialize, update,
}
use routstr_core.Settings.Service.Laws.{initialize-update}
use routstr_core.Settings.Admin.{initial_setup, is_admin_authenticated}
use routstr_core.Settings.Admin.Laws.{initial_setup_ok}
use routstr_core.Payment.Cost.{ModelPrices}
use routstr_core.Proxy.Headers.{Items, get_item, prepare_upstream_headers}
use routstr_core.Proxy.Headers.Laws.{get_item-prepare_upstream_headers}
use routstr_core.Proxy.Intake.{Body, intake, plain_get}
use routstr_core.Proxy.Intake.Laws.{intake_plain_get}
use routstr_core.Tests.Data.{settings, mints}

-- the environment switches the refresh of prices on
abbrev env : Dict
env k = if str_eq k "enable_pricing_refresh" then some (flag true) else none

abbrev service : Service
service = record { row = some (some env); live = env; initialized = true }

abbrev off : Dict
off k = if str_eq k "enable_pricing_refresh" then some (flag false) else none

abbrev valid : Dict → Option Dict
valid d = some d

abbrev switched : Dict
switched = (initialize [] env service).live

abbrev with_off : Service
with_off = (update valid off service).1

abbrev off_live : Dict
off_live = with_off.live

initialize-update_example :
    (with_off.live "enable_pricing_refresh" ≡ some (flag false))
    × ((initialize [] env with_off).live "enable_pricing_refresh" ≡ some (flag true))
unfolding update routstr_core.Settings.Service.truthy
initialize-update_example =
    initialize-update valid off env off_live [] service with_off "enable_pricing_refresh"
      (λ e. ground (arith, (eq_iff "enable_pricing_refresh" "primary_mint").1 e)) refl

abbrev set_up : Service
set_up = (initial_setup valid "  long enough " service).1

initial_setup_ok_example :
    (truthy_item (service.live "admin_password") ≡ false)
    × (8 ≤ count (str_strip "  long enough "))
    × (is_admin_authenticated (some (str_strip "  long enough ")) set_up.live ≡ true)
    × ((again : String)
        → initial_setup valid again set_up ≡ (err (http 409 "Admin password already set"), set_up))
unfolding initial_setup
initial_setup_ok_example =
    initial_setup_ok valid "  long enough " service set_up (λ d e h. ground arith) refl

abbrev headers : Items
headers = ("authorization", "Bearer sk-a") ∷ ("accept", "json") ∷ []

get_item-prepare_upstream_headers_example :
    get_item "accept" (prepare_upstream_headers "key" headers) ≡ some "json"
unfolding get_item
get_item-prepare_upstream_headers_example = get_item-prepare_upstream_headers "key" "accept" headers

abbrev no_models : ModelPrices
no_models = record { available_ids = []; sats_pricing = λ m. none }

intake_plain_get_example :
    intake thousandths
      (λ t. none)
      settings
      mints.deserialize_token
      no_models
      true
      (record { x_cashu = some ""; authorization = some "" })
      Body.no_body
    ≢ ok (plain_get (pos 1000))
intake_plain_get_example =
    intake_plain_get thousandths (λ t. none) settings mints.deserialize_token no_models true
      (record { x_cashu = some ""; authorization = some "" }) Body.no_body (pos 1000)

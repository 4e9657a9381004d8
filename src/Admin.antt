-- ===== src/Admin.antt =====
-- routstr/core/admin.py: which page the admin interface answers, and the page of a request's log
-- entries. The static text of a page is left out; Tables is the balances and the keys.
pub mod Laws
pub mod Tables
use routstr_core.Prelude.{
  ℕ, length, take, Bool, true, false, not, ◌&&◌, ◌||◌, any, Option, none, some, List, [], ◌∷◌, ◌++◌,
  map, filter, String, str_eq, str_elem, str_append, str_contains, str_strip, str_remove, get_or,
  is_some, if◌then◌else◌, ℤ, pos, ltb_ℤ, Result, ok, err, Exc, other_error,
}
use routstr_core.Prelude.Sort.{sort_by, str_ltb}
use routstr_core.Settings.Service.{Value, text, Service}
use routstr_core.Settings.Admin.{is_admin_authenticated}
use routstr_core.Wallet.Balances.{BalanceDetail, Balances}
use routstr_core.Db.{ApiKey, Table}
use routstr_core.Logging.{LogFile, newest_first}

-- the concatenation of texts
abbrev pub join : List String → String
join [] = ""
join (t ∷ ts) = str_append t (join ts)

-- A line of a log file: an object, whose values are given as the page shows them, or a JSON value
-- that is none, or no JSON.
pub data LogLine : Type 0 where
  fields : List (String × String) → LogLine
  no_object : LogLine
  no_json : LogLine

abbrev pub Fields : Type 0
Fields = List (String × String)

abbrev pub field : String → Fields → Option String
field name [] = none
field name ((k, v) ∷ fs) = if str_eq k name then some v else field name fs

-- the entry of a line; one that is no JSON is kept as it is
abbrev pub log_entry_of : (String → LogLine) → String → Option Fields
log_entry_of loads line = elim (loads (str_strip line)) [
  | fields fs ↦ some fs
  | no_object ↦ none
  | no_json ↦ some (("raw", str_strip line) ∷ [])
]

abbrev lines_of : String → List LogFile → List String
lines_of request_id [] = []
lines_of request_id (f ∷ fs) = filter (str_contains request_id) f.lines ++ lines_of request_id fs

-- the lines of the seven newest files that name the request
unfoldable pub matching_lines : String → List LogFile → List String
unfolding newest_first
matching_lines request_id files = lines_of request_id (take 7 (newest_first files))

-- `x.get("asctime", "")`
abbrev pub asctime : Fields → String
asctime fs = get_or "" (field "asctime" fs)

abbrev pub earlier : Fields → Fields → Bool
earlier a b = str_ltb (asctime a) (asctime b)

abbrev add_entry : Option Fields → Option (List Fields) → Option (List Fields)
add_entry (some e) (some es) = some (e ∷ es)
add_entry _ _ = none

abbrev pub entries_of : (String → LogLine) → List String → Option (List Fields)
entries_of loads [] = some []
entries_of loads (line ∷ lines) = add_entry (log_entry_of loads line) (entries_of loads lines)

abbrev sorted_entries : Option (List Fields) → Result (List Fields)
sorted_entries none = err (other_error "AttributeError")
sorted_entries (some es) = ok (sort_by earlier es)

-- The entries of a request by their time; the value of a line that is no object has no `get`.
unfoldable pub log_entries : (String → LogLine) → String → List LogFile → Result (List Fields)
unfolding matching_lines
log_entries loads request_id files =
    sorted_entries (entries_of loads (matching_lines request_id files))

abbrev pub shown_above : List String
shown_above =
    "asctime" ∷ "levelname" ∷ "message" ∷ "pathname" ∷ "lineno" ∷ "name" ∷ "version" ∷ "request_id"
    ∷ []

abbrev pub extra_fields : Fields → Fields
extra_fields fs = filter (λ (k, v). not (str_elem k shown_above)) fs

abbrev pub extra_row : String × String → String
extra_row (k, v) =
    join ("<div class=\"log-field\"><strong>" ∷ k ∷ ":</strong> " ∷ v ∷ "</div>" ∷ [])

abbrev extra_part : List String → String
extra_part [] = ""
extra_part (r ∷ rs) = join ("<div class=\"log-extra\">" ∷ join (r ∷ rs) ∷ "</div>" ∷ [])

abbrev above : (String → String) → Fields → List String
above lower_case fs =
    let level = get_or "INFO" (field "levelname" fs) in
    "<div class=\"log-entry log-"
    ∷ lower_case level
    ∷ "\"><div class=\"log-header\"><span class=\"log-timestamp\">"
    ∷ get_or "Unknown time" (field "asctime" fs)
    ∷ "</span><span class=\"log-level\">["
    ∷ level
    ∷ "]</span><span class=\"log-location\">"
    ∷ get_or "" (field "pathname" fs)
    ∷ ":"
    ∷ get_or "" (field "lineno" fs)
    ∷ "</span></div><div class=\"log-message\">"
    ∷ get_or "" (field "message" fs)
    ∷ "</div>"
    ∷ []

abbrev formatted : (String → String) → Fields → String
formatted lower_case fs =
    join (above lower_case fs ++ (extra_part (map extra_row (extra_fields fs)) ∷ "</div>" ∷ []))

abbrev raw_entry : String → String
raw_entry t = join ("<div class=\"log-entry\">" ∷ t ∷ "</div>" ∷ [])

unfoldable pub format_entry : (String → String) → Fields → String
format_entry lower_case fs = elim (field "raw" fs) [
  | some t ↦ raw_entry t
  | none ↦ formatted lower_case fs
]

-- a page; the dashboard and the two forms are static
pub data Page : Type 0 where
  login_form : Page
  setup_form : Page
  dashboard : Page
  logs_page : String → String → ℕ → Page

abbrev no_logs : String
no_logs = "<div class=\"no-logs\">No log entries found for this Request ID</div>"

abbrev or_no_logs : List String → String
or_no_logs [] = no_logs
or_no_logs (t ∷ ts) = join (t ∷ ts)

abbrev is_empty_text : Option Value → Bool
is_empty_text (some (text t)) = str_eq t ""
is_empty_text _ = false

-- `admin_auth`; `variable` is the environment's, for settings that are not initialised
unfoldable pub admin_auth : Option String → Service → Page
admin_auth variable s =
    if (if s.initialized
      then is_empty_text (s.live "admin_password")
      else str_eq (get_or "" variable) "")
    then setup_form
    else login_form

unfoldable pub admin : Option String → Option String → Service → Page
unfolding admin_auth is_admin_authenticated
admin cookie variable s =
    if is_admin_authenticated cookie s.live then dashboard else admin_auth variable s

abbrev page_of : (String → String) → String → Result (List Fields) → Result Page
page_of lower_case request_id (err e) = err e
page_of lower_case request_id (ok es) =
    ok (logs_page request_id (or_no_logs (map (format_entry lower_case) es)) (length es))

unfoldable pub view_logs :
    (String → String)
    → (String → LogLine)
    → Option String
    → Option String
    → Service
    → String
    → List LogFile
    → Result Page
unfolding admin_auth is_admin_authenticated log_entries format_entry
view_logs lower_case loads cookie variable s request_id files =
    if is_admin_authenticated cookie s.live
    then page_of lower_case request_id (log_entries loads request_id files)
    else ok (admin_auth variable s)

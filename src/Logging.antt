-- ===== src/Logging.antt =====
-- routstr/core/logging.py: log records, the filters that they pass, the level, and the old files.
pub mod Redact
use routstr_core.Prelude.{
  ℕ, zero, suc, Bool, true, false, ◌&&◌, Option, none, some, List, [], ◌∷◌, map, filter, String,
  str_eq, str_elem, str_append, starts_with, ends_with, str_contains, non_empty, if◌then◌else◌,
  Result, ok, err, get_or, ltb, take,
}
use routstr_core.Prelude.Sort.{sort_by}
use routstr_core.Proxy.Headers.{Items}

-- a value of `extra`
pub data Extra : Type 0 where
  said : String → Extra
  amount : ℕ → Extra
  items : Items → Extra

pub record LogRecord : Type 0 where
  pub level : String
  pub message : String
  pub request_id : String
  pub version : String
  pub extra : List (String × Extra)

-- `VersionFilter` and `RequestIdFilter`; the identifier is that of the context, if it has one
abbrev pub version_filter : String → LogRecord → LogRecord
version_filter version r = record r { version = version }

abbrev pub request_id_of : Option String → String
request_id_of none = "no-request-id"
request_id_of (some t) = if non_empty t then t else "no-request-id"

abbrev pub request_id_filter : Option String → LogRecord → LogRecord
request_id_filter context r = record r { request_id = request_id_of context }

-- `get_log_level`: `level` is the setting, or the variable where the settings cannot be read
unfoldable pub get_log_level : (String → String) → Result String → Option String → String
get_log_level upper_case level variable =
    let read : String = elim level [
      | ok t ↦ upper_case t
      | err e ↦ upper_case (get_or "INFO" variable)
    ] in
    if str_elem read ("TRACE" ∷ "DEBUG" ∷ "INFO" ∷ "WARNING" ∷ "ERROR" ∷ "CRITICAL" ∷ [])
    then read
    else "INFO"

unfoldable pub should_enable_console_logging :
    (String → String) → Result Bool → Option String → Bool
should_enable_console_logging lower_case enabled variable = elim enabled [
  | ok b ↦ b
  | err e ↦ str_elem (lower_case (get_or "true" variable)) ("true" ∷ "1" ∷ "yes" ∷ [])
]

-- what `setup_logging` gives a logger
pub record LoggerConfig : Type 0 where
  pub name : String
  pub level : String
  pub handlers : List String

abbrev handlers_of : Bool → List String
handlers_of console = "file" ∷ (if console then "console" ∷ [] else [])

abbrev only_console : Bool → List String
only_console console = if console then "console" ∷ [] else []

abbrev logger : String → String → List String → LoggerConfig
logger name level handlers = record { name = name; level = level; handlers = handlers }

-- the loggers of `LOGGING_CONFIG`, the root last
unfoldable pub loggers : String → Bool → List LoggerConfig
loggers level console =
    logger "routstr" level (handlers_of console)
    ∷ logger "routstr.payment" level (handlers_of console)
    ∷ logger "routstr.proxy" level (handlers_of console)
    ∷ logger "routstr.auth" level (handlers_of console)
    ∷ logger "routstr.payment.models" level (handlers_of console)
    ∷ logger "routstr.core.exceptions" level (handlers_of console)
    ∷ logger "routstr.core.middleware" level ("file" ∷ [])
    ∷ logger "httpx" "WARNING" (only_console console)
    ∷ logger "httpcore" "WARNING" (only_console console)
    ∷ logger "websockets" "WARNING" []
    ∷ logger "uvicorn.access" "WARNING" ("file" ∷ [])
    ∷ logger "uvicorn.error" level (handlers_of console)
    ∷ logger "watchfiles.main" "WARNING" []
    ∷ logger "aiosqlite" "ERROR" []
    ∷ logger "root" level (only_console console)
    ∷ []

-- a file of the directory of logs
pub record LogFile : Type 0 where
  pub name : String
  pub modified : ℕ
  pub lines : List String

-- sorted by the time of the last change, the newest first
unfoldable pub newest_first : List LogFile → List LogFile
newest_first files = sort_by (λ f g. ltb g.modified f.modified) files

-- `base_name` and a date
abbrev is_own : String → LogFile → Bool
is_own base_name f = starts_with f.name (str_append base_name "_") && ends_with f.name ".log"

abbrev drop : ℕ → List LogFile → List LogFile
drop zero fs = fs
drop (suc n) [] = []
drop (suc n) (f ∷ fs) = drop n fs

-- the files that `_cleanup_old_files` removes
unfoldable pub old_files : String → ℕ → List LogFile → List LogFile
unfolding newest_first
old_files base_name zero files = []
old_files base_name (suc n) files = drop (suc n) (newest_first (filter (is_own base_name) files))

-- what reading pyproject.toml gives: a version, none in it, or an exception
pub data Project : Type 0 where
  versioned : String → Project
  unversioned : Project
  broken : Project

abbrev version_of : Project → String
version_of (versioned t) = t
version_of unversioned = "unknown"
version_of broken = "unknown"

-- `get_package_version`: the directories from that of the module up to the root, which is not looked
-- at, and then the directory three levels up
unfoldable pub get_package_version : List (Option Project) → Option Project → String
get_package_version [] none = "unknown"
get_package_version [] (some p) = version_of p
get_package_version (none ∷ parents) fallback = get_package_version parents fallback
get_package_version (some p ∷ parents) fallback = version_of p

-- ===== src/Main.antt =====
-- routstr/core/main.py: the start of the application, its background tasks, and its end.
pub mod Laws
use routstr_core.Prelude.{
  Bool, true, false, Option, List, String, ℤ, pos, ltb_ℤ, if◌then◌else◌, Exec, Result, ok, err,
  pure, modify, ◌>>=◌, ◌>>◌,
}
use routstr_core.Settings.{Settings}

pub data Task : Type 0 where
  pricing models_refresh payout nip91 providers : Task

-- a variable of `lifespan` that holds a task or `None`
pub data Status : Type 0 where
  not_created running stopped : Status

-- the state of everything else, and what the application says of itself
pub record Node (S : Type 0) : Type 0 where
  pub state : S
  pub title : String
  pub description : String

abbrev pub on_state : {S A : Type 0} → Exec S A → Exec (Node S) A
on_state m n = let (r, s) = m n.state in (r, record n { state = s })

abbrev pub set_metadata : {S Float : Type 0} → Settings Float → Exec (Node S) (Unit {0})
set_metadata settings =
    modify λ n. record n { title = settings.name; description = settings.description }

-- the node, and the tasks
pub record App (S : Type 0) : Type 0 where
  pub rest : S
  pub pricing_task : Status
  pub models_refresh_task : Status
  pub payout_task : Status
  pub nip91_task : Status
  pub providers_task : Status

abbrev pub started : {S : Type 0} → S → App S
started s = record {
  rest = s;
  pricing_task = not_created;
  models_refresh_task = not_created;
  payout_task = not_created;
  nip91_task = not_created;
  providers_task = not_created;
}

abbrev pub on_rest : {S A : Type 0} → Exec S A → Exec (App S) A
on_rest m a = let (r, s) = m a.rest in (r, record a { rest = s })

-- `asyncio.create_task`
abbrev pub create_task : {S : Type 0} → Task → Exec (App S) (Unit {0})
create_task pricing a = (ok tt, record a { pricing_task = running })
create_task models_refresh a = (ok tt, record a { models_refresh_task = running })
create_task payout a = (ok tt, record a { payout_task = running })
create_task nip91 a = (ok tt, record a { nip91_task = running })
create_task providers a = (ok tt, record a { providers_task = running })

-- `cancel`, and the wait for the task's end
abbrev cancelled : Status → Status
cancelled not_created = not_created
cancelled running = stopped
cancelled stopped = stopped

unfoldable pub shutdown : {S : Type 0} → App S → App S
shutdown a = record a {
  pricing_task = cancelled a.pricing_task;
  models_refresh_task = cancelled a.models_refresh_task;
  payout_task = cancelled a.payout_task;
  nip91_task = cancelled a.nip91_task;
  providers_task = cancelled a.providers_task;
}

abbrev pub finally : {S A : Type 0} → Exec S A → (S → S) → Exec S A
finally m last s = let (r, s') = m s in (r, last s')

-- `models_refresh_interval_seconds` is read from the settings that are shared, once they are
-- initialised; `serve` is all that happens until the application is shut down.
module _ {S Float : Type 0} (run_migrations init_db : Exec S (Unit {0}))
    (initialize : Exec S (Settings Float)) (ensure_models_bootstrapped : Exec S (Unit {0}))
    (models_refresh_interval_seconds : S → ℤ) (serve : Exec S (Unit {0})) where
  -- what must return before a task is created
  unfoldable pub prepare : Exec (Node S) (Unit {0})
  prepare = do
    on_state run_migrations
    on_state init_db
    settings ← on_state initialize
    set_metadata settings
    on_state ensure_models_bootstrapped

  unfoldable pub create_tasks : Exec (App (Node S)) (Unit {0})
  create_tasks a =
      (do
        create_task pricing
        (if ltb_ℤ (pos 0) (models_refresh_interval_seconds a.rest.state)
            then create_task models_refresh
            else pure tt)
        create_task payout
        create_task nip91
        create_task providers)
        a

  unfoldable pub lifespan : Exec (App (Node S)) (Unit {0})
  unfolding prepare create_tasks shutdown
  lifespan = finally (do on_rest prepare; create_tasks; on_rest (on_state serve)) shutdown

-- `info`
pub record NodeInfo : Type 0 where
  pub name : String
  pub description : String
  pub version : String
  pub npub : String
  pub mints : List String
  pub http_url : String
  pub onion_url : String

-- `models` is always empty; `npub` is the setting of that name.
unfoldable pub info : {Float : Type 0} → String → String → Settings Float → NodeInfo
info version npub settings = record {
  name = settings.name;
  description = settings.description;
  version = version;
  npub = npub;
  mints = settings.cashu_mints;
  http_url = settings.http_url;
  onion_url = settings.onion_url;
}

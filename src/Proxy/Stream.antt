-- ===== src/Proxy/Stream.antt =====
-- routstr/proxy.py, `handle_streaming_chat_completion`: the settlement of a streamed answer. Each
-- settlement has a session of its own, so the state is the table that all sessions see.
pub mod Counts
pub mod Laws
use routstr_core.Prelude.{
  Bool, true, false, Option, none, some, List, [], ◌∷◌, String, non_empty, if◌then◌else◌, is_some,
  ℤ, Result, ok, err,
}
use mathlib.Core.List.{reverse}
use routstr_core.Db.{ApiKey, Table, Session, opened, find_key}
use routstr_core.Payment.Cost.{Cost, CostData, Usage, ResponseData}
use routstr_core.Auth.Payment.{adjust_payment}

-- What a `data: ` part of a chunk holds: an object, or something that is no JSON object.
pub data Event : Type 0 where
  object : Option String → Option Usage → Event
  no_object : Event

abbrev pub Chunk : Type 0
Chunk = List Event

-- `last_model_seen`
abbrev pub seen : Option String → Option String → Option String
seen old none = old
seen old (some m) = if non_empty m then some m else old

pub record Progress : Type 0 where
  pub table : Table
  pub usage_finalized : Bool
  pub last_model_seen : Option String

abbrev settled : Progress → Result (CostData × ApiKey) × Session → Progress
settled s (ok _, session) = record s { table = session.committed; usage_finalized = true }
settled s (err _, session) = record s { table = session.committed }

-- `price` is `calculate_cost` under the node's settings.
module _ (price : ResponseData → ℤ → Cost) (h : String) (max_cost : ℤ) where
  -- `adjust_payment_for_tokens` in a new session, if the key is still there
  settle_response : ResponseData → Progress → Option ApiKey → Progress
  settle_response r s none = s
  settle_response r s (some key) =
      settled s (adjust_payment key max_cost (price r max_cost) (opened s.table))

  pub settle_usage : Option String → Usage → Progress → Progress
  unfolding settle_response
  settle_usage model usage s =
      settle_response (record { model = model; usage = some usage }) s (find_key h s.table)

  -- the events of a chunk, up to the first with a usage
  pub scan_events : Chunk → Progress → Progress
  unfolding settle_usage
  scan_events [] s = s
  scan_events (no_object ∷ events) s = scan_events events s
  scan_events (object model none ∷ events) s =
      scan_events events (record s { last_model_seen = seen s.last_model_seen model })
  scan_events (object model (some usage) ∷ events) s =
      settle_usage model usage (record s { last_model_seen = seen s.last_model_seen model })

  -- from the last chunk to the first
  pub scan_chunks : List Chunk → Progress → Progress
  unfolding scan_events
  scan_chunks [] s = s
  scan_chunks (c ∷ chunks) s = scan_chunks chunks (scan_events c s)

  abbrev or_unknown : Option String → String
  or_unknown none = "unknown"
  or_unknown (some m) = m

  pub finalize_without_usage : Progress → Progress
  unfolding settle_response
  finalize_without_usage s =
      if s.usage_finalized
      then s
      else settle_response (record { model = some (or_unknown s.last_model_seen); usage = none }) s
          (find_key h s.table)

  -- The models that are seen while the chunks pass by.
  note_events : Chunk → Option String → Option String
  note_events [] m = m
  note_events (no_object ∷ events) m = note_events events m
  note_events (object model usage ∷ events) m = note_events events (seen m model)

  note_chunks : List Chunk → Option String → Option String
  unfolding note_events
  note_chunks [] m = m
  note_chunks (c ∷ chunks) m = note_chunks chunks (note_events c m)

  -- the whole stream, or the part of it that came before an interruption
  pub stream_with_cost : List Chunk → Table → Progress
  unfolding scan_chunks finalize_without_usage note_chunks
  stream_with_cost chunks t = finalize_without_usage (
      scan_chunks (reverse chunks)
        (record { table = t; usage_finalized = false; last_model_seen = note_chunks chunks none }))

  pub stream_interrupted : List Chunk → Table → Progress
  unfolding finalize_without_usage note_chunks
  stream_interrupted chunks t =
      finalize_without_usage
        (record { table = t; usage_finalized = false; last_model_seen = note_chunks chunks none })

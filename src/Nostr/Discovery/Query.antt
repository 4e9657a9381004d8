-- ===== src/Nostr/Discovery/Query.antt =====
-- routstr/discovery.py, `query_nostr_relay_for_providers`: the loop over a relay's frames. What
-- `recv` does at each call is a function of the number of calls before it.
pub mod Laws
use routstr_core.Prelude.{
  ℕ, zero, suc, Bool, true, false, Option, none, some, List, [], ◌∷◌, String, str_eq, ◌&&◌, not,
  is_some, if◌then◌else◌,
}
use routstr_core.Nostr.{Event}

-- A frame, no frame for five seconds, or an exception that ends the query.
pub data Frame : Type 0 where
  event_frame : String → Event → Frame
  eose_frame : String → Frame
  other_frame : Frame
  not_json : Frame
  timed_out : Frame
  broken : Frame

-- the frames that the loop does not go on from; an event without an `id` raises
unfoldable pub ends_query : String → Frame → Bool
ends_query sub_id (event_frame s e) = str_eq s sub_id && not (is_some e.id)
ends_query sub_id (eose_frame s) = str_eq s sub_id
ends_query sub_id other_frame = false
ends_query sub_id not_json = false
ends_query sub_id timed_out = true
ends_query sub_id broken = true

-- the events that a frame adds
unfoldable pub noted : String → Frame → List Event → List Event
noted sub_id (event_frame s e) es = if str_eq s sub_id then e ∷ es else es
noted sub_id _ es = es

abbrev and_then : Option (List Event) → (List Event → List Event) → Option (List Event)
and_then none f = none
and_then (some es) f = some (f es)

-- The loop, for at most `fuel` frames: `none` if it has not ended by then.
unfoldable pub query_frames : ℕ → String → (ℕ → Frame) → Option (List Event)
unfolding ends_query noted
query_frames zero sub_id recv = none
query_frames (suc fuel) sub_id recv =
    let rest = query_frames fuel sub_id (λ n. recv (suc n)) in
    if ends_query sub_id (recv 0) then some [] else and_then rest (noted sub_id (recv 0))

-- ===== src/Nostr/Discovery/Query/Laws.antt =====
-- When the loop over a relay's frames ends.
use routstr_core.Prelude.{
  ℕ, zero, suc, ◌≤◌, ◌≡◌, true, false, Bool-cases, inl, inr, some, List, [], String, arith, none,
}
use routstr_core.Nostr.{Event}
use routstr_core.Nostr.Discovery.Query.{
  event_frame, eose_frame, timed_out, broken, Frame, ends_query, noted, query_frames,
}

-- The query returns these events, however many frames more it may take.
abbrev pub Returns : String → (ℕ → Frame) → List Event → Type 0
Returns sub_id recv es = (n : ℕ) × ((fuel : ℕ) → n ≤ fuel → query_frames fuel sub_id recv ≡ some es)

abbrev later : (ℕ → Frame) → ℕ → Frame
later recv n = recv (suc n)

at_once :
    (fuel : ℕ) (sub_id : String) (recv : ℕ → Frame)
    → ends_query sub_id (recv 0) ≡ true
    → 1 ≤ fuel
    → query_frames fuel sub_id recv ≡ some []
unfolding query_frames
at_once zero sub_id recv e h = absurd (omega arith)
at_once (suc fuel) sub_id recv e h = ground arith

one_more :
    (n fuel : ℕ) (sub_id : String) (recv : ℕ → Frame) (es : List Event)
    → ends_query sub_id (recv 0) ≡ false
    → ((m : ℕ) → n ≤ m → query_frames m sub_id (later recv) ≡ some es)
    → suc n ≤ fuel
    → query_frames fuel sub_id recv ≡ some (noted sub_id (recv 0) es)
unfolding query_frames
one_more n zero sub_id recv es e h l = absurd (omega arith)
one_more n (suc fuel) sub_id recv es e h l = ground (arith, h fuel)

pub query_frames_ended :
    (n : ℕ) (sub_id : String) (recv : ℕ → Frame)
    → ends_query sub_id (recv n) ≡ true
    → (es : List Event) × Returns sub_id recv es
query_frames_ended zero sub_id recv e = ([], (1, λ fuel. at_once fuel sub_id recv e))
query_frames_ended (suc n) sub_id recv e = elim (Bool-cases (ends_query sub_id (recv 0))) [
  | inl y ↦ ([], (1, λ fuel. at_once fuel sub_id recv y))
  | inr n' ↦
      let (es, (m, h)) = query_frames_ended n sub_id (later recv) e in
      (noted sub_id (recv 0) es, (suc m, λ fuel. one_more m fuel sub_id recv es n' h))
]

-- The end of the stored events of this subscription, five seconds with no frame, an exception of the
-- connection, or an event of this subscription that has no `id`.
pub data Ends (sub_id : String) : Frame → Type 0 where
  at_eose : Ends sub_id (eose_frame sub_id)
  at_silence : Ends sub_id timed_out
  at_failure : Ends sub_id broken
  at_event : (e : Event) → e.id ≡ none → Ends sub_id (event_frame sub_id e)

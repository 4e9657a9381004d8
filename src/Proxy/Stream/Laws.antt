-- ===== src/Proxy/Stream/Laws.antt =====
-- How often a streamed answer is settled.
use routstr_core.Prelude.{
  ◌≡◌, refl, ◌∙◌, sym, ap, subst, Bool, true, false, ◌||◌, none, some, List, [], ◌∷◌, String,
  if◌then◌else◌, ℕ, zero, suc, ℤ, ◌-ℤ◌, Result, ok, err,
}
use mathlib.Core.List.{reverse}
use routstr_core.Db.{ApiKey, Table, Session, opened, find_key}
use routstr_core.Db.Laws.{IsKeyed, hashed_key-find_key}
use routstr_core.Payment.Cost.{Cost, CostData, ResponseData}
use routstr_core.Auth.Payment.{adjust_payment, settle}
use routstr_core.Auth.Payment.Laws.{adjust_payment_ok, adjust-IsKeyed, charged}
use routstr_core.Proxy.Stream.Counts.{
  has_usage, usages, released, at_least_one, positive, finalized_after, or_false,
  finalized_after-positive, released_chunk, usages-reverse,
}
use routstr_core.Proxy.Stream.{
  object, no_object, Chunk, Progress, settled, settle_response, settle_usage, scan_events,
  scan_chunks, finalize_without_usage, stream_with_cost, note_chunks, or_unknown,
}

-- The settlements of one stream, when no cost is an error.
module _ (price : ResponseData → ℤ → Cost) (h : String) (max_cost : ℤ)
    (always_charged : (r : ResponseData)
      → (c : CostData) × (charged (price r max_cost) ≡ some c)) where
  -- the key's row has this much reserved
  pub record Reserves (b : ℤ) (done : Bool) (s : Progress) : Type 0 where
    pub keyed : IsKeyed s.table
    pub row : ApiKey
    pub at : find_key h s.table ≡ some row
    pub reserved : row.reserved_balance ≡ b
    pub flag : s.usage_finalized ≡ done

  settled-Reserves :
      (b : ℤ) (s : Progress) (row : ApiKey) (answer : CostData × ApiKey)
      (x : Result (CostData × ApiKey) × Session)
      → x.0 ≡ ok answer
      → IsKeyed x.1.committed
      → find_key h x.1.committed ≡ some row
      → row.reserved_balance ≡ b
      → Reserves b true (settled s x)
  settled-Reserves b s row answer (ok a, t) e keyed at r = record {
    keyed = keyed;
    row = row;
    at = at;
    reserved = r;
    flag = refl;
  }
  settled-Reserves b s row answer (err x, t) e keyed at r = cc

  settle_response-Reserves :
      (r : ResponseData) (b : ℤ) (done : Bool) (s : Progress)
      → Reserves b done s
      → Reserves (b -ℤ max_cost) true (settle_response price h max_cost r s (find_key h s.table))
  unfolding settle_response
  settle_response-Reserves r b done s v =
      let (c, sure) = always_charged r in
      let named = hashed_key-find_key h s.table v.row v.at in
      let here : find_key v.row.hashed_key s.table ≡ some v.row =
        subst (λ x. find_key x s.table ≡ some v.row) (sym named) v.at in
      let after = adjust_payment v.row max_cost (price r max_cost) (opened s.table) in
      let done_ok =
        adjust_payment_ok v.row v.row (opened s.table) max_cost (price r max_cost) c v.keyed here
          sure in
      let keyed = adjust-IsKeyed v.row max_cost (price r max_cost) (opened s.table) v.keyed in
      subst (λ found. Reserves (b -ℤ max_cost) true (settle_response price h max_cost r s found))
        (sym v.at)
        (settled-Reserves (b -ℤ max_cost) s (settle max_cost c.total_msats v.row)
          (c, settle max_cost c.total_msats v.row) after done_ok.0
          (subst (λ t. IsKeyed t) done_ok.2 keyed)
          (subst (λ x. find_key x after.1.committed ≡ some (settle max_cost c.total_msats v.row))
            named done_ok.1)
          (ap (λ x. x -ℤ max_cost) v.reserved))

  abbrev chunk_released : Chunk → ℤ → ℤ
  chunk_released c b = if has_usage c then b -ℤ max_cost else b

  scan_events-Reserves :
      (c : Chunk) (b : ℤ) (done : Bool) (s : Progress)
      → Reserves b done s
      → Reserves (chunk_released c b) (has_usage c || done) (scan_events price h max_cost c s)
  unfolding scan_events settle_usage
  scan_events-Reserves [] b done s v = v
  scan_events-Reserves (no_object ∷ events) b done s v = scan_events-Reserves events b done s v
  scan_events-Reserves (object model none ∷ events) b done s v =
      scan_events-Reserves events b done _
        (record { keyed = v.keyed; row = v.row; at = v.at; reserved = v.reserved; flag = v.flag })
  scan_events-Reserves (object model (some usage) ∷ events) b done s v =
      settle_response-Reserves (record { model = model; usage = some usage }) b done _
        (record { keyed = v.keyed; row = v.row; at = v.at; reserved = v.reserved; flag = v.flag })

  scan_chunks-Reserves :
      (chunks : List Chunk) (b : ℤ) (done : Bool) (s : Progress)
      → Reserves b done s
      → Reserves
          (released (usages chunks) max_cost b)
          (finalized_after chunks done)
          (scan_chunks price h max_cost chunks s)
  unfolding scan_chunks
  scan_chunks-Reserves [] b done s v = v
  scan_chunks-Reserves (c ∷ chunks) b done s v =
      let next = scan_events price h max_cost c s in
      subst
        (λ x.
          Reserves x (finalized_after chunks (has_usage c || done))
            (scan_chunks price h max_cost chunks next))
        (released_chunk c chunks max_cost b)
        (scan_chunks-Reserves chunks (chunk_released c b) (has_usage c || done) next
          (scan_events-Reserves c b done s v))

  finalize_once :
      (n : ℕ) (b : ℤ) (done : Bool) (s : Progress)
      → (done ≡ positive n)
      → Reserves (released n max_cost b) done s
      → Reserves
          (released (at_least_one n) max_cost b)
          true
          (finalize_without_usage price h max_cost s)
  unfolding finalize_without_usage
  finalize_once zero b done s e v =
      subst
        (λ d. Reserves (b -ℤ max_cost) true (
          if d
          then s
          else settle_response price h max_cost
              (record {
                model = some (or_unknown price h max_cost s.last_model_seen);
                usage = none;
              })
              s (find_key h s.table)))
        (sym (v.flag ∙ e))
        (settle_response-Reserves
          (record { model = some (or_unknown price h max_cost s.last_model_seen); usage = none }) b
          done s v)
  finalize_once (suc n) b done s e v =
      subst
        (λ d. Reserves (released (suc n) max_cost b) true (
          if d
          then s
          else settle_response price h max_cost
              (record {
                model = some (or_unknown price h max_cost s.last_model_seen);
                usage = none;
              })
              s (find_key h s.table)))
        (sym (v.flag ∙ e))
        (record {
          keyed = v.keyed;
          row = v.row;
          at = v.at;
          reserved = v.reserved;
          flag = v.flag ∙ e;
        })

  -- If no cost is an error, keys are unique and the key has a row, a finished stream releases the
  -- maximum cost once for each chunk with a usage, and once if there is no such chunk.
  pub stream_with_cost_releases :
      (chunks : List Chunk) (t : Table) (row : ApiKey)
      → IsKeyed t
      → find_key h t ≡ some row
      → Reserves
          (released (at_least_one (usages chunks)) max_cost row.reserved_balance)
          true
          (stream_with_cost price h max_cost chunks t)
  unfolding stream_with_cost
  stream_with_cost_releases chunks t row v at =
      let start : Progress = record {
        table = t;
        usage_finalized = false;
        last_model_seen = note_chunks price h max_cost chunks none;
      } in
      let scanned =
        scan_chunks-Reserves (reverse chunks) row.reserved_balance false start
          (record { keyed = v; row = row; at = at; reserved = refl; flag = refl }) in
      subst
        (λ n. Reserves (released (at_least_one n) max_cost row.reserved_balance) true (
          finalize_without_usage price h max_cost
            (scan_chunks price h max_cost (reverse chunks) start)))
        (usages-reverse chunks)
        (finalize_once (usages (reverse chunks)) row.reserved_balance _ _
          (finalized_after-positive (reverse chunks) false ∙ or_false _) scanned)

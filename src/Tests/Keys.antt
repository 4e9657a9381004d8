-- ===== src/Tests/Keys.antt =====
-- Payments of one key.
use routstr_core.Prelude.{
  map, ◌≡◌, refl, true, false, some, none, [], ◌∷◌, ℤ, pos, negsuc, ok, err, arith, inl, ◌>>=◌,
  ◌>>◌, ◌<ℤ◌, String, starts_with, str_drop,
}
use routstr_core.Db.{ApiKey, Session, find_key, opened, total_balance}
use routstr_core.Auth.Payment.{pay_for_request, revert_pay_for_request, reserve}
use routstr_core.Auth.Payment.Lifecycle.{
  pay_then_adjust, pay_then_revert, after_request, revert-pay_for_request, adjust-pay_for_request,
}
use routstr_core.Accounts.{
  Events, request, created, touched, credited, refunded, Events-IsAccounted,
}
use routstr_core.Auth.Bearer.{add_key, touch}
use routstr_core.Wallet.Credit.{save_balance}
use routstr_core.Balance.{delete_committed}
use routstr_core.Auth.Payment.Interleaving.{
  System, Step, pays, reverts, here, next, IsAccounted, Reach-worth, worth_of,
}
use routstr_core.Auth.Payment.Overdraft.{
  IsCovered, pay_for_request-IsCovered, both_pay, both_settle, both_overdraw, drained,
}
use routstr_core.Tests.Data.{row, start, three_sats}

revert-pay_for_request_example :
    let (r, s') = pay_then_revert row (pos 4000) start in
    (r ≡ ok row) × (find_key "k" s'.committed ≡ some row)
unfolding find_key total_balance routstr_core.Prelude.◌-ℤ◌ routstr_core.Prelude.◌+ℤ◌
revert-pay_for_request_example =
    revert-pay_for_request row row start (pos 4000) (refl, tt) refl (omega arith) (omega arith)

adjust-pay_for_request_example :
    let (r, s') = pay_then_adjust row (pos 4000) three_sats start in
    find_key "k" s'.committed ≡ some (after_request (pos 3000) row)
unfolding find_key total_balance routstr_core.Prelude.◌-ℤ◌ routstr_core.Prelude.◌+ℤ◌
adjust-pay_for_request_example =
    (adjust-pay_for_request row row start (pos 4000) three_sats _ (refl, tt) refl (omega arith)
      (omega arith) refl).1

pay_for_request-IsCovered_example :
    (after : ApiKey) × (find_key "k" (pay_for_request row (pos 4000) start).1.working ≡ some after)
    × IsCovered after
unfolding find_key total_balance routstr_core.Prelude.◌-ℤ◌ routstr_core.Prelude.◌+ℤ◌
pay_for_request-IsCovered_example =
    pay_for_request-IsCovered row (pos 4000) start (refl, tt) refl (omega arith)
      (record { reserved_nonneg = omega arith; covered = omega arith })

both_overdraw_example :
    let (r, s') = (both_pay row (pos 4000) >>= both_settle row (pos 4000)) start in
    (r ≡ ok (drained row (pos 4000)))
    × (find_key "k" s'.committed ≡ some (drained row (pos 4000)))
    × ((drained row (pos 4000)).balance <ℤ pos 0)
unfolding find_key total_balance routstr_core.Prelude.◌-ℤ◌ routstr_core.Prelude.◌+ℤ◌
both_overdraw_example =
    both_overdraw row (pos 4000) start (refl, tt) refl (omega arith) (omega arith) (omega arith)

-- no request is open
abbrev idle : System
idle = record { table = row ∷ []; entries = [] }

idle-IsAccounted : IsAccounted idle
unfolding find_key
idle-IsAccounted = record { keyed = (refl, tt); reserved = λ h k e. ground arith }

abbrev paid : Session
paid = (pay_for_request row (pos 4000) start).1

abbrev busy : System
busy = record { table = paid.committed; entries = record { owner = "k"; amount = pos 4000 } ∷ [] }

idle-busy : Step idle busy
unfolding pay_for_request find_key total_balance routstr_core.Prelude.◌-ℤ◌
    routstr_core.Db.exec_update routstr_core.Db.rowcount routstr_core.Db.update_where
idle-busy = pays {sys = idle} row (reserve (pos 4000) row) (pos 4000) paid refl

abbrev other_key : ApiKey
other_key = record row { hashed_key = "n"; balance = pos 0 }

abbrev topped_up : Session
topped_up = (save_balance row (pos 10) (opened busy.table)).1

abbrev joined : Session
joined = ((add_key other_key >> save_balance other_key (pos 7)) (opened topped_up.committed)).1

abbrev joined_key : ApiKey
joined_key = record other_key { balance = pos 7 }

abbrev renamed : Session
renamed = (touch (some "me@host") none joined_key (opened joined.committed)).1

abbrev paid_back : Session
paid_back = (delete_committed other_key (opened renamed.working)).1

-- a revert of more than was paid, which leaves -100
abbrev reverted : Session
reverted = (revert_pay_for_request row (pos 4100) (opened paid_back.committed)).1

abbrev at_end : System
at_end = record {
  table = reverted.committed;
  entries = record { owner = "k"; amount = negsuc 4099 } ∷ busy.entries;
}

-- a payment, a credit to the same key, a new key that a token finds again, its refund, and a revert
idle-Events : Events idle at_end
unfolding add_key save_balance touch delete_committed find_key routstr_core.Db.delete_key
    routstr_core.Db.update_where routstr_core.Db.commit routstr_core.Prelude.◌+ℤ◌ pay_for_request
    total_balance routstr_core.Prelude.◌-ℤ◌ routstr_core.Db.exec_update routstr_core.Db.rowcount
    revert_pay_for_request
idle-Events =
    Events.next
      (Events.next
        (Events.next
          (Events.next
            (Events.next (Events.next Events.here (request idle-busy))
              (credited {sys = busy} row (pos 10) topped_up refl))
            (created {sys = record busy { table = topped_up.committed }} other_key (pos 7) joined
              refl refl))
          (touched {sys = record busy { table = joined.committed }} (some "me@host") none joined_key
            _ renamed refl refl))
        (refunded {sys = record busy { table = renamed.working }} other_key paid_back refl))
      (request (
        reverts {sys = record busy { table = paid_back.committed }} row _ (pos 4100) reverted refl))

-- the reservation at the end
below_zero : map (λ k. k.reserved_balance) at_end.table ≡ negsuc 99 ∷ []
unfolding add_key save_balance touch delete_committed find_key routstr_core.Db.delete_key
    routstr_core.Db.update_where routstr_core.Db.commit routstr_core.Prelude.◌+ℤ◌ pay_for_request
    total_balance routstr_core.Prelude.◌-ℤ◌ routstr_core.Db.exec_update routstr_core.Db.rowcount
    revert_pay_for_request
below_zero = refl

Events-IsAccounted_example : IsAccounted at_end
Events-IsAccounted_example = Events-IsAccounted idle-IsAccounted idle-Events

Reach-worth_example : worth_of (find_key "k" busy.table) ≡ worth_of (find_key "k" idle.table)
Reach-worth_example = Reach-worth idle-IsAccounted (next here idle-busy) "k"

-- ===== src/Idempotency/Tests.antt =====
-- Runs of the idempotency stores, and the properties at concrete inputs.
use noddde.Base.{
  ℕ, ◌+◌, String, ◌≡◌, refl, none, some, [], ◌∷◌, true, false, not, ◌&&◌, ◌==◌, is_some,
  if◌then◌else◌,
}
use noddde.Result.{ok, err, idempotency_conflict, thrown}
use noddde.Map.{get, set, delete}
use noddde.UnitOfWork.{Op, after}
use noddde.Idempotency.{
  IdempotencyRecord, IdempotencyStore, EventIdempotencyStore, is_cut, get_live_record, exists, save,
  remove_expired, has_processed, mark_processed, with_idempotency,
}
use noddde.Idempotency.Expiry.{
  live, live-get_live_record, save-live, save-save_conflict, get-remove_expired, boundary_age,
}
use noddde.Idempotency.Handler.{memory_store, redelivery_skipped, failure_redelivers}

abbrev record_at : ℕ → IdempotencyRecord
record_at at = record {
  command_id = "c1";
  aggregate_name = "Account";
  aggregate_id = "1";
  processed_at = at;
}

abbrev empty : IdempotencyStore
empty = record { ttl_ms = some 100; store = [] }

abbrev one_record : IdempotencyStore
one_record = record { ttl_ms = some 100; store = ("c1", record_at 1000) ∷ [] }

expired_test : exists one_record "c1" 1101 ≡ (false, empty)
unfolding exists get_live_record get delete
expired_test = refl

live-get_live_record_run :
    ((get_live_record one_record "c1" 1101).0 ≡ live one_record "c1" 1101)
    × (live (get_live_record one_record "c1" 1101).1 "c2" 1101 ≡ live one_record "c2" 1101)
live-get_live_record_run = live-get_live_record one_record "c1" 1101 "c2"

save-live_test :
    ((save one_record (record_at 1200) 1200).0
      ≡ (if is_some (live one_record "c1" 1200) then err (idempotency_conflict "c1") else ok tt))
    × (live (save one_record (record_at 1200) 1200).1 "c1" 1200 ≡ (
        if "c1" == "c1" && not (is_some (live one_record "c1" 1200))
        then some (record_at 1200)
        else live one_record "c1" 1200))
save-live_test = save-live one_record (record_at 1200) 1200 "c1" refl

save-save_conflict_run : (save one_record (record_at 1050) 1050).0 ≡ err (idempotency_conflict "c1")
unfolding save get_live_record get set
save-save_conflict_run =
    save-save_conflict empty one_record (record_at 1000) (record_at 1050) 1000 1050 refl refl refl

get-remove_expired_run :
    get (remove_expired one_record 100 1100).store "c1" ≡ elim (get one_record.store "c1") [
      | none ↦ none
      | some r ↦ if is_cut 100 1100 r.processed_at then none else some r
    ]
unfolding get
get-remove_expired_run = get-remove_expired one_record 100 1100 "c1" (refl, tt)

boundary_age_test :
    ((exists one_record "c1" 1100).0 ≡ true)
    × ((exists (remove_expired one_record 100 1100) "c1" 1100).0 ≡ false)
unfolding get
boundary_age_test = boundary_age one_record (record_at 1000) 100 1100 "c1" (refl, tt) refl refl refl

-- A handler that counts its calls, and one that throws.
abbrev counting : String → Op (ℕ × EventIdempotencyStore)
counting event w = (ok tt, (w.0 + 1, w.1))

abbrev failing : String → Op (ℕ × EventIdempotencyStore)
failing event w = (err (thrown "smtp down"), (w.0 + 1, w.1))

abbrev no_events : EventIdempotencyStore
no_events = record { ttl_ms = none; store = [] }

-- a store with a time to live of 100, before and after a delivery at 5
abbrev short_lived : EventIdempotencyStore
short_lived = record { ttl_ms = some 100; store = [] }

abbrev marked_at : ℕ → EventIdempotencyStore
marked_at time = record { ttl_ms = some 100; store = ("e1", time) ∷ [] }

delivered_once :
    with_idempotency counting (memory_store 5) (λ e. some e) "e1" (0, short_lived)
    ≡ (ok tt, (1, marked_at 5))
unfolding with_idempotency has_processed mark_processed get set
delivered_once = refl

redelivery_skipped_example :
    with_idempotency counting (memory_store 105) (λ e. some e) "e1" (1, marked_at 5)
    ≡ (ok tt, (1, marked_at 5))
unfolding has_processed get
redelivery_skipped_example =
    redelivery_skipped counting (λ e. some e) "e1" "e1" "e1" 5 105 (0, short_lived) (1, marked_at 5)
      refl refl refl delivered_once

forgotten_test :
    with_idempotency counting (memory_store 106) (λ e. some e) "e1" (1, marked_at 5)
    ≡ (ok tt, (2, marked_at 106))
unfolding with_idempotency has_processed mark_processed get set delete
forgotten_test = refl

failure_redelivers_test :
    (with_idempotency failing (memory_store 5) (λ e. some e) "e1" (0, no_events)
      ≡ (err (thrown "smtp down"), (1, no_events)))
    × (with_idempotency failing (memory_store 5) (λ e. some e) "e1" (1, no_events)
        ≡ after (failing "e1" (1, no_events)) (λ _. (memory_store 5).mark "e1"))
unfolding has_processed get
failure_redelivers_test =
    failure_redelivers failing (memory_store 5) (λ e. some e) "e1" "e1" (0, no_events)
      (0, no_events) (1, no_events) (1, no_events) (thrown "smtp down") refl refl refl refl

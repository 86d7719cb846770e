-- ===== src/Relay/Tests.antt =====
-- Runs of the relay, and the properties at concrete inputs. The bus takes the events with a
-- payload other than 30, and its world is the list of the payloads it was given.
use mathlib.Core.Option
use noddde.Base.{
  ℕ, ◌+◌, String, ◌≡◌, refl, none, some, List, [], ◌∷◌, Bool, true, false, not, eqb, arith, ◌++◌,
  if◌then◌else◌,
}
use noddde.Result.{ok, err, thrown}
use noddde.Event.{Event}
use noddde.Map.{get, set, values}
use noddde.UnitOfWork.{Op}
use noddde.Outbox.{
  OutboxEntry, OutboxStore, load_unpublished, mark_published, insert_entry, sort_entries,
}
use noddde.Outbox.Marking.{pending}
use noddde.Outbox.Loading.{IsOutbox}
use noddde.Relay.{Relay, process_once, drain}
use noddde.Relay.Delivery.{is_delivered, stamped, is_ok, pending-process_once, get-process_once}
use noddde.Relay.Drain.{drain-empties, drain_while_processing, drain_stalls}

abbrev entry : String → ℕ → OutboxEntry ℕ
entry id at = record {
  id = id;
  event = record { name = "Deposited"; payload = at; metadata = none };
  aggregate_name = none;
  aggregate_id = none;
  created_at = at;
  published_at = none;
}

abbrev outbox : OutboxStore ℕ
outbox = ("a", entry "a" 10) ∷ ("b", entry "b" 30) ∷ ("c", entry "c" 20) ∷ []

outbox-IsOutbox : IsOutbox outbox
unfolding get
outbox-IsOutbox = ((refl, (refl, (refl, tt))), (refl, (refl, (refl, tt))))

abbrev relay : Relay ℕ
relay = record {
  outbox = outbox;
  batch_size = 2;
  polling = true;
  processing = false;
  drained = false;
}

abbrev takes : Event ℕ → Bool
takes e = not (eqb e.payload 30)

abbrev picky : Event ℕ → Op (List ℕ)
picky e w = ((if takes e then ok tt else err (thrown "broker down")), w ++ e.payload ∷ [])

abbrev open_bus : Event ℕ → Op (List ℕ)
open_bus e w = (ok tt, w ++ e.payload ∷ [])

abbrev closed_bus : Event ℕ → Op (List ℕ)
closed_bus e w = (err (thrown "broker down"), w)

batch_test : (process_once picky 99 relay []).2 ≡ 10 ∷ 20 ∷ []
unfolding process_once load_unpublished sort_entries insert_entry values mark_published get set
batch_test = refl

picky-takes : (e : Event ℕ) (w : List ℕ) → is_ok (picky e w).0 ≡ takes e
picky-takes e w = ground arith

pending-process_once_test :
    pending (process_once picky 99 relay []).1.outbox + (process_once picky 99 relay []).0
    ≡ pending outbox
pending-process_once_test = pending-process_once picky 99 relay [] refl outbox-IsOutbox

get-process_once_example : get (process_once picky 99 relay []).1.outbox "a" ≡ (
    if is_delivered picky 99 (load_unpublished outbox 2) [] "a"
    then Option.map (stamped 99) (get outbox "a")
    else get outbox "a")
get-process_once_example = get-process_once picky 99 relay [] "a" refl outbox-IsOutbox

drain-empties_example :
    (r' : Relay ℕ) × (w' : List ℕ) × (drain open_bus 99 4 relay [] ≡ some (r', w'))
    × (pending r'.outbox ≡ 0)
unfolding values
drain-empties_example =
    drain-empties open_bus 99 4 relay [] (λ e w. refl) (omega arith) refl refl outbox-IsOutbox
      (omega arith)

drain_while_processing_test :
    drain open_bus 99 8 (record relay { processing = true }) []
    ≡ some (record relay { processing = true; drained = true; polling = false }, [])
drain_while_processing_test =
    drain_while_processing open_bus 99 7 (record relay { processing = true }) [] refl refl

drain_stalls_run :
    (r' : Relay ℕ) × (w' : List ℕ) × (drain closed_bus 99 8 relay [] ≡ some (r', w'))
    × (r'.outbox ≡ outbox)
unfolding load_unpublished sort_entries insert_entry values
drain_stalls_run = drain_stalls closed_bus 99 7 relay [] refl refl ((λ w. refl), ((λ w. refl), tt))

-- ===== src/Broker.antt =====
-- What the buses over kafkajs, amqplib and nats share. Each adapter holds its own copy of this
-- code; the lines are those of packages/adapters/kafka/src/kafka-event-bus.ts. Handlers act on the
-- world `W`, and a call of a client leaves the bus `B` as it is.
pub mod Names
use noddde.Base.{List, [], ◌∷◌, Option, none, some}
use noddde.Result.{Error}
use noddde.UnitOfWork.{Op}

-- What the promise of a handler settles to; the reason of a rejection may be `undefined`.
pub data Settled : Type 0 where
  fulfilled : Settled
  rejected : Option Error → Settled

pub record Handler (W E : Type 0) : Type 0 where
  pub run : E → W → Settled × W

abbrev pub on_world : {B W : Type 0} → Op W → Op (B × W)
on_world op (bus, w) = let (r, w') = op w in (r, (bus, w'))

-- `Promise.allSettled(handlers.map((handler) => handler(event)))`
unfoldable pub settle_all : {W E : Type 0} → List (Handler W E) → E → W → List Settled × W
settle_all [] event w = ([], w)
settle_all (h ∷ hs) event w =
    let (r, w1) = h.run event w in let (rs, w2) = settle_all hs event w1 in (r ∷ rs, w2)

-- `firstRejection` behind the loop over the results
unfoldable pub first_rejection : List Settled → Option Error
first_rejection [] = none
first_rejection (fulfilled ∷ rs) = first_rejection rs
first_rejection (rejected none ∷ rs) = first_rejection rs
first_rejection (rejected (some e) ∷ rs) = some e

-- ===== src/Relay.antt =====
-- packages/engine/src/outbox-relay.ts over the in-memory outbox. The bus is an action of a world
-- `W` apart from the outbox: handlers that add outbox entries while a batch runs are not
-- modelled. The timer is a flag, and log lines are left out.
pub mod Delivery
pub mod Drain
mod Tests
use noddde.Base.{
  ℕ, zero, suc, ◌+◌, String, List, [], ◌∷◌, Option, none, some, Bool, true, false, eqb,
  if◌then◌else◌,
}
use noddde.Result.{Result, ok, err}
use noddde.Event.{Event}
use noddde.UnitOfWork.{Action, Op}
use noddde.Outbox.{OutboxEntry, OutboxStore, load_unpublished, mark_published}

pub record Relay (P : Type 0) : Type 0 where
  pub outbox : OutboxStore P
  pub batch_size : ℕ
  pub polling : Bool
  pub processing : Bool
  pub drained : Bool

module _ {P : Type 0} where
  unfoldable pub start : Relay P → Relay P
  start r = if r.polling then r else record r { polling = true }

  unfoldable pub stop : Relay P → Relay P
  stop r = if r.polling then record r { polling = false } else r

module _ {P W : Type 0} (dispatch : Event P → Op W) (now : ℕ) where
  -- the loop of `processOnce`: an entry whose dispatch throws stays as it is
  unfoldable pub dispatch_entries : List (OutboxEntry P) → OutboxStore P → W → ℕ × OutboxStore P × W
  dispatch_entries [] store w = (0, store, w)
  dispatch_entries (e ∷ es) store w =
      let (r, w') = dispatch e.event w in
      elim r [
        | ok _ ↦
            let (n, store', w'') = dispatch_entries es (mark_published store (e.id ∷ []) now) w' in
            (suc n, store', w'')
        | err x ↦ dispatch_entries es store w'
      ]

  -- `finally` clears the flag that the call set.
  unfoldable pub process_once : Relay P → W → ℕ × Relay P × W
  unfolding dispatch_entries
  process_once r w =
      if r.processing
      then (0, r, w)
      else let (n, store, w') =
          dispatch_entries (load_unpublished r.outbox r.batch_size) r.outbox w in
        (n, record r { outbox = store; processing = false }, w')

  -- `do processed = await processOnce() while (processed > 0)`; `none` is fuel that ran out.
  unfoldable pub drain_loop : ℕ → Relay P → W → Option (Relay P × W)
  drain_loop zero r w = none
  drain_loop (suc fuel) r w =
      let (n, r', w') = process_once r w in
      let more = drain_loop fuel r' w' in if eqb n 0 then some (r', w') else more

  unfoldable pub drain : ℕ → Relay P → W → Option (Relay P × W)
  drain fuel r w =
      let rest = drain_loop fuel (stop (record r { drained = true })) w in
      if r.drained then some (r, w) else rest

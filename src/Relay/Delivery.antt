-- ===== src/Relay/Delivery.antt =====
-- One batch: what is published, and how many entries that takes off the outbox.
use mathlib.Core.Option
use noddde.Base.{
  ℕ, ◌+◌, String, ◌≡◌, ◌≢◌, refl, List, [], ◌∷◌, some, Bool, true, false, arith, All, ◌==◌, eq_iff,
  if◌then◌else◌,
}
use noddde.Result.{Result, ok, err}
use noddde.Event.{Event}
use noddde.Map.{get}
use noddde.UnitOfWork.{Op}
use noddde.Outbox.{OutboxEntry, OutboxStore, is_unpublished, load_unpublished, mark_published}
use noddde.Outbox.Marking.{pending, pending-mark_published, get-mark_published}
use noddde.Outbox.Loading.{AreDistinct, IsOutbox, load_unpublished-Waiting}
use noddde.Relay.{Relay, dispatch_entries, process_once}

module _ {P : Type 0} where
  abbrev pub stamped : ℕ → OutboxEntry P → OutboxEntry P
  stamped now e = record e { published_at = some now }

abbrev pub is_ok : Result (Unit {0}) → Bool
is_ok (ok _) = true
is_ok (err e) = false

module _ {P W : Type 0} (dispatch : Event P → Op W) (now : ℕ) where
  abbrev Waiting : OutboxStore P → OutboxEntry P → Type 0
  Waiting store e = (get store e.id ≡ some e) × (is_unpublished e ≡ true)

  Waiting-mark :
      (store : OutboxStore P) (e : OutboxEntry P) (es : List (OutboxEntry P))
      → All (λ x. x.id ≢ e.id) es
      → All (Waiting store) es
      → All (Waiting (mark_published store (e.id ∷ []) now)) es
  Waiting-mark store e [] n h = tt
  Waiting-mark store e (x ∷ es) n h = (
    (ground (arith, get-mark_published store e.id x.id now, eq_iff e.id x.id), h.0.1),
    Waiting-mark store e es n.1 h.1,
  )

  pending-dispatch_entries :
      (es : List (OutboxEntry P)) (store : OutboxStore P) (w : W)
      → All (Waiting store) es
      → AreDistinct es
      → pending (dispatch_entries dispatch now es store w).1
          + (dispatch_entries dispatch now es store w).0
        ≡ pending store
  unfolding dispatch_entries
  pending-dispatch_entries [] store w h d = ground arith
  pending-dispatch_entries (e ∷ es) store w h d =
      let w' = (dispatch e.event w).1 in
      let marked = mark_published store (e.id ∷ []) now in
      let one = pending-mark_published store e now h.0.0 (ground arith) in
      let sent = pending-dispatch_entries es marked w' (Waiting-mark store e es d.0 h.1) d.1 in
      let kept = pending-dispatch_entries es store w' h.1 d.1 in ground (arith, one, sent, kept)

  -- Every entry that a batch counts is one less that waits: none is counted that was not marked,
  -- and none is marked twice.
  pub pending-process_once :
      (r : Relay P) (w : W)
      → r.processing ≡ false
      → IsOutbox r.outbox
      → pending (process_once dispatch now r w).1.outbox + (process_once dispatch now r w).0
        ≡ pending r.outbox
  unfolding process_once
  pending-process_once r w idle h =
      let (waiting, distinct) = load_unpublished-Waiting r.outbox r.batch_size h in
      let batch = load_unpublished r.outbox r.batch_size in
      rw (idle, process_once) (pending-dispatch_entries batch r.outbox w waiting distinct)

  -- The listed entries are dispatched one after the other, each in the world that the ones before
  -- it have left: the dispatch of the entry with this id succeeds.
  abbrev pub is_delivered : List (OutboxEntry P) → W → String → Bool
  is_delivered [] w key = false
  is_delivered (e ∷ es) w key =
      let rest = is_delivered es (dispatch e.event w).1 key in
      if e.id == key then is_ok (dispatch e.event w).0 else rest

  not_delivered :
      (es : List (OutboxEntry P)) (w : W) (key : String)
      → All (λ x. x.id ≢ key) es
      → is_delivered es w key ≡ false
  not_delivered [] w key h = refl
  not_delivered (e ∷ es) w key h =
      ground (arith, eq_iff e.id key, h.0, not_delivered es (dispatch e.event w).1 key h.1)

  get-dispatch_entries :
      (es : List (OutboxEntry P)) (store : OutboxStore P) (w : W) (key : String)
      → All (Waiting store) es
      → AreDistinct es
      → get (dispatch_entries dispatch now es store w).1 key ≡ (
          if is_delivered es w key then Option.map (stamped now) (get store key) else get store key)
  unfolding dispatch_entries
  get-dispatch_entries [] store w key h d = refl
  get-dispatch_entries (e ∷ es) store w key h d =
      let w' = (dispatch e.event w).1 in
      let marked = mark_published store (e.id ∷ []) now in
      ground (
        arith,
        h.0.0,
        h.0.1,
        eq_iff e.id key,
        get-mark_published store e.id key now,
        not_delivered es w' e.id d.0,
        get-dispatch_entries es marked w' key (Waiting-mark store e es d.0 h.1) d.1,
        get-dispatch_entries es store w' key h.1 d.1,
      )

  -- A run of an idle relay marks as published, with the time of the run, exactly the entries of its
  -- batch whose own dispatch in this run succeeds; every other entry is as it was, so that one whose
  -- dispatch failed still waits.
  pub get-process_once :
      (r : Relay P) (w : W) (key : String)
      → r.processing ≡ false
      → IsOutbox r.outbox
      → get (process_once dispatch now r w).1.outbox key ≡ (
          if is_delivered (load_unpublished r.outbox r.batch_size) w key
          then Option.map (stamped now) (get r.outbox key)
          else get r.outbox key)
  unfolding process_once
  get-process_once r w key idle h =
      let (waiting, distinct) = load_unpublished-Waiting r.outbox r.batch_size h in
      let batch = load_unpublished r.outbox r.batch_size in
      rw (idle, process_once) (get-dispatch_entries batch r.outbox w key waiting distinct)

-- ===== src/Relay/Drain.antt =====
-- When `drain` ends, and what it leaves.
use noddde.Base.{
  ℕ, zero, suc, ◌<◌, String, ◌≡◌, refl, sym, ap, ◌∙◌, Option-cases, List, [], ◌∷◌, some, true,
  false, arith, All, length, eq_iff, Bool-cases, inl, inr, eqb,
}
use noddde.Event.{Event}
use noddde.Map.{get, set}
use noddde.Map.Laws.{set-IsMap}
use noddde.UnitOfWork.{Op}
use noddde.Outbox.{OutboxEntry, OutboxStore, is_unpublished, load_unpublished, mark_published}
use noddde.Outbox.Marking.{pending}
use noddde.Outbox.Loading.{IsKeyed, IsOutbox, load_unpublished-nil}
use noddde.Relay.{Relay, dispatch_entries, process_once, drain_loop, drain, stop}
use noddde.Relay.Delivery.{is_ok, pending-process_once}

module _ {P : Type 0} where
  set-IsKeyed :
      (store : OutboxStore P) (k : String) (e : OutboxEntry P)
      → k ≡ e.id
      → IsKeyed store
      → IsKeyed (set store k e)
  unfolding set
  set-IsKeyed [] k e h keyed = (h, tt)
  set-IsKeyed ((j, x) ∷ store) k e h keyed =
      ground (arith, eq_iff j k, set-IsKeyed store k e h keyed.1)

  get-IsKeyed :
      (store : OutboxStore P) (k : String) (e : OutboxEntry P)
      → IsKeyed store
      → get store k ≡ some e
      → k ≡ e.id
  unfolding get
  get-IsKeyed [] k e keyed h = cc
  get-IsKeyed ((j, x) ∷ store) k e keyed h =
      ground (arith, eq_iff j k, get-IsKeyed store k e keyed.1)

  mark_published-IsOutbox :
      (store : OutboxStore P) (id : String) (now : ℕ)
      → IsOutbox store
      → IsOutbox (mark_published store (id ∷ []) now)
  unfolding mark_published
  mark_published-IsOutbox store id now h = elim (Option-cases (get store id)) [
    | inl e ↦ rw (e, mark_published) h
    | inr (found, e) ↦ elim (Bool-cases (is_unpublished found)) [
      | inl u ↦
          let stamped = record found { published_at = some now } in
          rw (e, mark_published, u)
            (
              set-IsMap store id stamped h.0,
              set-IsKeyed store id stamped (get-IsKeyed store id found h.1 e) h.1,
            )
      | inr p ↦ rw (e, mark_published, p) h
    ]
  ]

module _ {P W : Type 0} (dispatch : Event P → Op W) (now : ℕ) where
  dispatch_entries-IsOutbox :
      (es : List (OutboxEntry P)) (store : OutboxStore P) (w : W)
      → IsOutbox store
      → IsOutbox (dispatch_entries dispatch now es store w).1
  unfolding dispatch_entries
  dispatch_entries-IsOutbox [] store w h = h
  dispatch_entries-IsOutbox (e ∷ es) store w h =
      let w' = (dispatch e.event w).1 in
      ground (
        arith,
        dispatch_entries-IsOutbox es (mark_published store (e.id ∷ []) now) w'
            (mark_published-IsOutbox store e.id now h),
        dispatch_entries-IsOutbox es store w' h,
      )

  process_once-IsOutbox :
      (r : Relay P) (w : W) → IsOutbox r.outbox → IsOutbox (process_once dispatch now r w).1.outbox
  unfolding process_once
  process_once-IsOutbox r w h = elim (Bool-cases r.processing) [
    | inl busy ↦ rw (busy, process_once) h
    | inr idle ↦
        rw (idle, process_once)
          (dispatch_entries-IsOutbox (load_unpublished r.outbox r.batch_size) r.outbox w h)
  ]

  process_once-idle :
      (r : Relay P) (w : W)
      → r.processing ≡ false
      → ((process_once dispatch now r w).1.processing ≡ false)
        × ((process_once dispatch now r w).1.batch_size ≡ r.batch_size)
  unfolding process_once
  process_once-idle r w h = ground arith

  -- With more fuel than entries that wait, the loop of `drain` ends: each run but the last takes
  -- an entry off the outbox, and the last one dispatches nothing.
  pub drain_loop-ends :
      (fuel : ℕ) (r : Relay P) (w : W)
      → r.processing ≡ false
      → IsOutbox r.outbox
      → pending r.outbox < fuel
      → (before : Relay P × W) × (after : Relay P × W) × (drain_loop dispatch now fuel r w
          ≡ some after)
        × (process_once dispatch now before.0 before.1 ≡ (0, after.0, after.1))
        × (before.0.processing ≡ false)
        × IsOutbox before.0.outbox
        × (before.0.batch_size ≡ r.batch_size)
  unfolding drain_loop
  drain_loop-ends zero r w idle h lt = absurd (omega arith)
  drain_loop-ends (suc fuel) r w idle h lt =
      let (n, r', w') = process_once dispatch now r w in
      let fewer = pending-process_once dispatch now r w idle h in
      let idle' = process_once-idle r w idle in
      elim (Bool-cases (eqb n 0)) [
        | inl stops ↦ ((r, w), (r', w'), rw stops refl, ground arith, idle, h, refl)
        | inr goes ↦
            let (before, after, runs, last, free, keyed, size) =
              drain_loop-ends fuel r' w' idle'.0 (process_once-IsOutbox r w h) (ground arith) in
            (before, after, rw goes runs, last, free, keyed, size ∙ idle'.1)
      ]

  count-dispatch_entries :
      (es : List (OutboxEntry P)) (store : OutboxStore P) (w : W)
      → ((event : Event P) (w : W) → is_ok (dispatch event w).0 ≡ true)
      → (dispatch_entries dispatch now es store w).0 ≡ length es
  unfolding dispatch_entries
  count-dispatch_entries [] store w t = refl
  count-dispatch_entries (e ∷ es) store w t =
      let w' = (dispatch e.event w).1 in
      ground
        (arith, t e.event w, count-dispatch_entries es (mark_published store (e.id ∷ []) now) w' t)

  count-process_once :
      (r : Relay P) (w : W)
      → ((event : Event P) (w : W) → is_ok (dispatch event w).0 ≡ true)
      → r.processing ≡ false
      → (process_once dispatch now r w).0 ≡ length (load_unpublished r.outbox r.batch_size)
  unfolding process_once
  count-process_once r w t idle =
      rw (idle, process_once)
        (count-dispatch_entries (load_unpublished r.outbox r.batch_size) r.outbox w t)

  length-nil : (es : List (OutboxEntry P)) → length es ≡ 0 → es ≡ []
  length-nil [] h = refl
  length-nil (e ∷ es) h = absurd (omega arith)

  stalled-empty :
      (r r' : Relay P) (w w' : W)
      → ((event : Event P) (w : W) → is_ok (dispatch event w).0 ≡ true)
      → 0 < r.batch_size
      → r.processing ≡ false
      → IsOutbox r.outbox
      → process_once dispatch now r w ≡ (0, r', w')
      → pending r'.outbox ≡ 0
  stalled-empty r r' w w' t pos idle h e =
      let all = count-process_once r w t idle in
      let none_sent = ap (λ (x : ℕ × Relay P × W). x.0) e in
      let empty = length-nil (load_unpublished r.outbox r.batch_size) (sym all ∙ none_sent) in
      let left = load_unpublished-nil r.outbox r.batch_size pos empty in
      let counted = pending-process_once dispatch now r w idle h in ground (arith, left, counted, e)

  drain-eq :
      (fuel : ℕ) (r : Relay P) (w : W)
      → r.drained ≡ false
      → drain dispatch now fuel r w
        ≡ drain_loop dispatch now fuel (record r { drained = true; polling = false }) w
  unfolding drain stop
  drain-eq fuel r w new = ground arith

  -- If the bus takes every event, a drain of an idle relay that was not drained before, with batches
  -- that are not empty and with more fuel than entries wait, ends, and then no entry waits.
  pub drain-empties :
      (fuel : ℕ) (r : Relay P) (w : W)
      → ((event : Event P) (w : W) → is_ok (dispatch event w).0 ≡ true)
      → 0 < r.batch_size
      → r.processing ≡ false
      → r.drained ≡ false
      → IsOutbox r.outbox
      → pending r.outbox < fuel
      → (r' : Relay P) × (w' : W) × (drain dispatch now fuel r w ≡ some (r', w'))
        × (pending r'.outbox ≡ 0)
  drain-empties fuel r w t pos idle new h lt =
      let r1 = record r { drained = true; polling = false } in
      let (before, after, runs, last, free, keyed, size) = drain_loop-ends fuel r1 w idle h lt in
      (
        after.0,
        after.1,
        drain-eq fuel r w new ∙ runs,
        stalled-empty before.0 after.0 before.1 after.1 t (omega arith) free keyed last,
      )

  -- A drain that begins while a batch is still being processed ends at once: it dispatches
  -- nothing, and every waiting entry is left.
  pub drain_while_processing :
      (fuel : ℕ) (r : Relay P) (w : W)
      → r.processing ≡ true
      → r.drained ≡ false
      → drain dispatch now (suc fuel) r w ≡ some (record r { drained = true; polling = false }, w)
  unfolding drain drain_loop process_once stop
  drain_while_processing fuel r w busy new = ground arith

  rejected-dispatch_entries :
      (es : List (OutboxEntry P)) (store : OutboxStore P) (w : W)
      → All (λ e. (w : W) → is_ok (dispatch e.event w).0 ≡ false) es
      → ((dispatch_entries dispatch now es store w).0 ≡ 0)
        × ((dispatch_entries dispatch now es store w).1 ≡ store)
  unfolding dispatch_entries
  rejected-dispatch_entries [] store w h = (refl, refl)
  rejected-dispatch_entries (e ∷ es) store w h =
      ground (arith, h.0 w, rejected-dispatch_entries es store (dispatch e.event w).1 h.1)

  refused-process_once :
      (r : Relay P) (w : W)
      → r.processing ≡ false
      → (let d =
            dispatch_entries dispatch now (load_unpublished r.outbox r.batch_size) r.outbox w in
          (d.0 ≡ 0) × (d.1 ≡ r.outbox))
      → ((process_once dispatch now r w).0 ≡ 0)
        × ((process_once dispatch now r w).1.outbox ≡ r.outbox)
  unfolding process_once
  refused-process_once r w idle h = rw (idle, process_once) h

  last_round :
      (fuel : ℕ) (r : Relay P) (w : W)
      → (process_once dispatch now r w).0 ≡ 0
      → drain_loop dispatch now (suc fuel) r w
        ≡ some ((process_once dispatch now r w).1, (process_once dispatch now r w).2)
  unfolding drain_loop
  last_round fuel r w h = ground (arith, h)

  -- If the bus refuses every entry of the first batch, the drain ends with the outbox as it was:
  -- the entries behind that batch are not tried, however many there are.
  pub drain_stalls :
      (fuel : ℕ) (r : Relay P) (w : W)
      → r.processing ≡ false
      → r.drained ≡ false
      → All
          (λ e. (w : W) → is_ok (dispatch e.event w).0 ≡ false)
          (load_unpublished r.outbox r.batch_size)
      → (r' : Relay P) × (w' : W) × (drain dispatch now (suc fuel) r w ≡ some (r', w'))
        × (r'.outbox ≡ r.outbox)
  drain_stalls fuel r w idle new h =
      let r1 = record r { drained = true; polling = false } in
      let batch = load_unpublished r.outbox r.batch_size in
      let (count, same) = rejected-dispatch_entries batch r.outbox w h in
      let (n, r', w') = process_once dispatch now r1 w in
      let (zero_sent, kept) = refused-process_once r1 w idle (count, same) in
      (r', w', drain-eq (suc fuel) r w new ∙ last_round fuel r1 w zero_sent, kept)

-- ===== src/Dispatching/Closing.antt =====
-- Which components a shutdown closes, and in which order.
use noddde.Base.{◌≡◌, refl, ap, ◌∙◌, List, [], ◌∷◌, ◌++◌, Option, none, some}
use noddde.Result.{Result, ok}
use noddde.UnitOfWork.{Op, after}
use noddde.Dispatching.{closeables, close_each, drain_relay, perform_shutdown}

module _ {W : Type 0} where
  -- the last component first, each one once, with what it threw forgotten
  abbrev pub close_from_last : List (Option (Op W)) → W → W
  close_from_last [] w = w
  close_from_last (none ∷ components) w = close_from_last components w
  close_from_last (some close ∷ components) w = (close (close_from_last components w)).1

  close_each-append :
      (xs ys : List (Op W)) (w : W) → close_each (xs ++ ys) w ≡ close_each ys (close_each xs w)
  unfolding close_each
  close_each-append [] ys w = refl
  close_each-append (x ∷ xs) ys w = close_each-append xs ys (x w).1

  close_each-closeables :
      (components : List (Option (Op W))) (w : W)
      → close_each (closeables components) w ≡ close_from_last components w
  unfolding close_each closeables
  close_each-closeables [] w = refl
  close_each-closeables (none ∷ components) w = close_each-closeables components w
  close_each-closeables (some close ∷ components) w =
      close_each-append (closeables components) (close ∷ []) w
      ∙ ap (λ w. (close w).1) (close_each-closeables components w)

  -- A shutdown drains the relay, where there is one, and closes the event bus; if one of the two
  -- fails, it rejects with that error and closes no component. Otherwise it succeeds whatever the
  -- components throw, and has closed each one that can be closed, the last one first.
  pub perform_shutdown-eq :
      (wait : W → W) (relay : Option (Op W)) (close_bus : Op W) (components : List (Option (Op W)))
      (w : W)
      → perform_shutdown wait relay close_bus components w ≡ (
          let drained : Result (Unit {0}) × W = elim relay [
            | none ↦ (ok tt, wait w)
            | some drain ↦ drain (wait w)
          ] in
          after drained (λ _ w. after (close_bus w) (λ _ w. (ok tt, close_from_last components w))))
  unfolding perform_shutdown drain_relay
  perform_shutdown-eq wait none close_bus components w =
      ap (λ (end : W → W). after (close_bus (wait w)) (λ _ w. (ok tt, end w)))
        (λ i w. close_each-closeables components w i)
  perform_shutdown-eq wait (some drain) close_bus components w =
      ap
        (λ (end : W → W).
          after (drain (wait w)) (λ _ w. after (close_bus w) (λ _ w. (ok tt, end w))))
        (λ i w. close_each-closeables components w i)

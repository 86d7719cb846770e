-- ===== src/Projection/Tests.antt =====
-- A projection of balances, and the rebuild at a concrete log.
use noddde.Base.{ℕ, ◌+◌, ◌≡◌, refl, ap, subst, [], ◌∷◌, none, some, true, false, or_default}
use noddde.Result.{ok, err, strong_rebuild}
use noddde.Event.{Event}
use noddde.Map.{get}
use noddde.Projection.{
  ViewStore, view, Projection, ProjectionHandler, Counts, rebuild, upcast_for, validate_rebuild,
}
use noddde.Projection.Laws.{run_live, Reduces, IsReplayable, rebuild-live}

abbrev balance : ProjectionHandler ℕ ℕ
balance = record { id = λ e. some "1"; reduce = λ e v. ok (view (or_default v 0 + e.payload)) }

abbrev balances : Projection ℕ ℕ
balances = record { on = ("Deposited", balance) ∷ []; initial_view = none }

abbrev deposited : ℕ → Event ℕ
deposited n = record { name = "Deposited"; payload = n; metadata = none }

abbrev opened : Event ℕ
opened = record { name = "Opened"; payload = 0; metadata = none }

abbrev stale : ViewStore ℕ
stale = ("1", 99) ∷ ("2", 7) ∷ []

strong_test :
    validate_rebuild "Balances" (record {
      shutting_down = false;
      initialized = true;
      registered = true;
      strong = true;
      has_factory = false;
      has_reader = true;
      truncatable = true;
      progress_interval = none;
    })
    ≡ err (strong_rebuild "Balances")
unfolding validate_rebuild
strong_test = refl

replays : (n : ℕ) → IsReplayable balances [] (deposited n)
unfolding upcast_for get
replays n = (
  refl,
  (λ h e.
      subst (λ h. Reduces balances [] h (deposited n)) (ap (λ o. or_default o balance) e)
        ("1", refl, (λ v. (_, refl)))),
)

rebuild-live_example :
    let done =
      rebuild {W = Unit {0}} {E = Event ℕ} balances [] 1000
        (λ n. ok tt)
        (deposited 5 ∷ deposited 7 ∷ [])
        []
        stale
        [] in
    (c : Counts) × (done.0 ≡ ok c)
    × (done.1 ≡ run_live balances (deposited 5 ∷ deposited 7 ∷ []) [])
    × (c.events_read ≡ 2)
rebuild-live_example =
    rebuild-live balances [] 1000 (λ n. ok tt) (λ n. refl) (deposited 5 ∷ deposited 7 ∷ []) [] stale
      [] (replays 5, (replays 7, tt))

-- ===== src/Bus/Tests.antt =====
-- Runs of the buses, and the properties at concrete inputs. The world is a list of numbers.
use noddde.Base.{ℕ, String, ◌≡◌, refl, List, [], ◌∷◌, ◌++◌, none, ◌==◌, arith, if◌then◌else◌}
use noddde.Result.{ok, err, thrown}
use noddde.Map.{get, set}
use noddde.UnitOfWork.{Action}
use noddde.Bus.{Handler, EventBus, HandlerRegistry, on, off, dispatch, register, dispatch_request}
use noddde.Bus.Laws.{dispatch-on, handlers_of, handlers_of-off-on, dispatch_request-register}

abbrev failing : Handler (List ℕ) String
failing = record { identity = 1; run = λ e w. (err (thrown "smtp down"), w ++ 1 ∷ []) }

abbrev counting : Handler (List ℕ) String
counting = record { identity = 2; run = λ e w. (ok tt, w ++ 2 ∷ []) }

abbrev bus : EventBus (List ℕ) String
bus = ("Deposited", failing ∷ []) ∷ []

dispatch-on_test :
    (dispatch bus (λ e. e) "Deposited" []).0 ≡ ok tt
    × (dispatch (on bus "Deposited" counting) (λ e. e) "Deposited" [] ≡ (
        if "Deposited" == "Deposited"
        then (ok tt, (counting.run "Deposited" (dispatch bus (λ e. e) "Deposited" []).1).1)
        else dispatch bus (λ e. e) "Deposited" []))
dispatch-on_test = dispatch-on bus "Deposited" counting (λ e. e) "Deposited" []

handlers_of-off-on_run :
    handlers_of (off (on bus "Deposited" counting) "Deposited" counting) "Deposited"
    ≡ handlers_of bus "Deposited"
unfolding get
handlers_of-off-on_run =
    handlers_of-off-on bus "Deposited" "Deposited" counting ((λ e. ground arith), tt)

abbrev answers : HandlerRegistry (Unit {0}) ℕ ℕ
answers = []

abbrev doubled : ℕ → Action (Unit {0}) ℕ
doubled n w = (ok 8, w)

abbrev one_answer : HandlerRegistry (Unit {0}) ℕ ℕ
one_answer = ("GetBalance", doubled) ∷ []

dispatch_request-register_run :
    (get answers "GetBalance" ≡ none)
    × (dispatch_request one_answer "GetBalance" 4 tt ≡ (
        if "GetBalance" == "GetBalance"
        then doubled 4 tt
        else dispatch_request answers "GetBalance" 4 tt))
unfolding register get set
dispatch_request-register_run =
    dispatch_request-register answers one_answer "GetBalance" "GetBalance" doubled 4 tt refl

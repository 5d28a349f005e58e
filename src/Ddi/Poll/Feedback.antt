-- ===== src/Ddi/Poll/Feedback.antt =====
-- How the answer of a handler reaches hawkBit and its listener.
use up2date_cpp.Base.{ℕ, ◌≡◌, refl, Option, none, some, ◌∷◌, arith}
use up2date_cpp.Text.{Text, c_str}
use up2date_cpp.Outcome.{Result, ok, throw, fault, http_unexpected_code}
use up2date_cpp.Uri.{Uri}
use up2date_cpp.Json.{RapidJson}
use up2date_cpp.Ddi.Session.Monad.{
  delivered, undelivered, Reply, Environment, Session, continue, ◌>>=◌, emit, pure,
}
use up2date_cpp.Ddi.Session.Requests.{retry_handler}
use up2date_cpp.Ddi.Poll.{post_feedback, tell_listener, catch_code, try_feedback, deliver_feedback}

-- The outcome of a feedback by the outcome of its request: the listener hears of a success and of
-- an unexpected code, which is then no error; every other exception passes by the listener.
abbrev pub feedback_outcome : Option ℕ → Result Reply × Session → Result (Unit {0}) × Session
feedback_outcome none (ok response, s) = (ok tt, s)
feedback_outcome (some n) (ok response, s) = (ok tt, record s { history = delivered n ∷ s.history })
feedback_outcome (some n) (throw (http_unexpected_code p x), s) =
    (ok tt, record s { history = undelivered n ∷ s.history })
feedback_outcome _ (throw e, s) = (throw e, s)
feedback_outcome _ (fault e, s) = (fault e, s)

module _ (json : RapidJson) (env : Environment) where
  outcome_of :
      (listener : Option ℕ) (r : Result Reply × Session)
      → catch_code json env listener (continue (λ _. tell_listener json env listener) r)
        ≡ feedback_outcome listener r
  unfolding catch_code emit pure
  outcome_of none (ok response, s) = refl
  outcome_of none (throw e, s) = ground arith
  outcome_of none (fault e, s) = refl
  outcome_of (some n) (ok response, s) = refl
  outcome_of (some n) (throw e, s) = ground arith
  outcome_of (some n) (fault e, s) = refl

  -- What sending a feedback comes to is decided by the request to the feedback path: the listener
  -- is told of a success, or of a code that is not 200, and then the poll goes on; a code with no
  -- listener and any other exception, a second 401 or a failed connection, go up with the listener
  -- not told.
  pub deliver_feedback_lem :
      (uri : Uri) (body : Text) (listener : Option ℕ) (s : Session)
      → deliver_feedback json env uri body listener s
        ≡ feedback_outcome listener
            (retry_handler env uri (post_feedback json env uri (c_str body)) s)
  unfolding deliver_feedback try_feedback ◌>>=◌
  deliver_feedback_lem uri body listener s = outcome_of listener _

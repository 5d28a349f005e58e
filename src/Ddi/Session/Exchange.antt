-- ===== src/Ddi/Session/Exchange.antt =====
-- What a call of `retryHandler` adds to the history: at most two requests, with one call for
-- credentials between them.
use mathlib.Core.Path.{subst}
use up2date_cpp.Base.{ℕ, ◌≡◌, refl, ap, sym, Option, none, some, ◌∷◌, inl, inr, Bool-cases}
use up2date_cpp.Text.{Text}
use up2date_cpp.Outcome.{Exception, Result, ok, throw, fault}
use up2date_cpp.Uri.{Uri}
use up2date_cpp.Ddi.State.{Client}
use up2date_cpp.Ddi.Session.Monad.{
  Connection, Method, Request, Reply, HttpResult, requested, auth_asked, History, Environment,
  Session, M, ◌>>=◌, lift, pure, continue,
}
use up2date_cpp.Ddi.Session.Requests.{
  constructed, connection_of, new_http_client, send, wrapped_request, run_restore, ask_auth,
  is_unauthorized, again, recover, retry_handler,
}
use up2date_cpp.Ddi.Session.Retry.{
  request_of, judge, judging, judging_lem, run_restore-history, with_asked,
}

module _ (env : Environment) (Asks : Request → Type 0) where
  -- An attempt at a request from the history `h`, with the response that it gave: nothing was sent,
  -- where no client can be constructed or what the request needs cannot be made; the answer was an
  -- error or has another code than 200; or it is the response.
  pub data Attempted (h : History) : Option Reply → History → Type 0 where
    skipped : Attempted h none h
    sent : (r : Request) → Asks r → Attempted h none (requested r ∷ h)
    answered :
        (r : Request) (response : Reply)
        → Asks r
        → judge (env.exchange h r) ≡ ok response
        → Attempted h (some response) (requested r ∷ h)

  -- One attempt, or one without a response, a call for credentials, and a second one.
  pub data Exchange (h : History) : Option Reply → History → Type 0 where
    once : {o : Option Reply} {g : History} → Attempted h o g → Exchange h o g
    twice :
        {o : Option Reply} {f g : History}
        → Attempted h none f
        → (n : ℕ) → Attempted (auth_asked n ∷ f) o g
        → Exchange h o g

  abbrev pub Attempts : History → Result Reply × Session → Type 0
  Attempts h (ok response, s) = Attempted h (some response) s.history
  Attempts h (throw e, s) = Attempted h none s.history
  Attempts h (fault x, s) = Attempted h none s.history

  abbrev pub Exchanges : History → Result Reply × Session → Type 0
  Exchanges h (ok response, s) = Exchange h (some response) s.history
  Exchanges h (throw e, s) = Exchange h none s.history
  Exchanges h (fault x, s) = Exchange h none s.history

  -- An action that sends one request if it returns, and then returns its result.
  abbrev pub Sends : History → Result HttpResult × Session → Type 0
  Sends h (ok result, t) =
      (r : Request) × Asks r × (result ≡ env.exchange h r) × (t.history ≡ requested r ∷ h)
  Sends h (throw e, t) = Attempted h none t.history
  Sends h (fault x, t) = Attempted h none t.history

  Attempts-sent :
      (h : History) (r : Request) (o : Result Reply) (t : Session)
      → Asks r
      → judge (env.exchange h r) ≡ o
      → t.history ≡ requested r ∷ h
      → Attempts h (o, t)
  Attempts-sent h r (ok response) t a e s =
      subst (Attempted h (some response)) (sym s) (answered r response a e)
  Attempts-sent h r (throw e) t a _ s = subst (Attempted h none) (sym s) (sent r a)
  Attempts-sent h r (fault x) t a _ s = subst (Attempted h none) (sym s) (sent r a)

  Exchanges-twice :
      (h : History) {f : History} (n : ℕ) (r : Result Reply × Session)
      → Attempted h none f
      → Attempts (auth_asked n ∷ f) r
      → Exchanges h r
  Exchanges-twice h n (ok a, t) p s = twice p n s
  Exchanges-twice h n (throw e, t) p s = twice p n s
  Exchanges-twice h n (fault x, t) p s = twice p n s

  module _ (u : Uri) (func : Connection → M HttpResult) where
    -- A function for `retryHandler` that sends at most one request.
    pub record SendsOnce : Type 0 where
      pub at : (s : Session) → Sends s.history (func (connection_of s.client u) s)

    judging-Attempts :
        (h : History) (r : Result HttpResult × Session)
        → Sends h r
        → Attempts h (continue (judging env) r)
    judging-Attempts h (ok result, t) (r, a, e, s) =
        rw (judging_lem env result t) (Attempts-sent h r (judge result) t a (ap judge (sym e)) s)
    judging-Attempts h (throw e, t) s = s
    judging-Attempts h (fault x, t) s = s

    module _ (sends : SendsOnce) where
      wrapped_if :
          (s : Session) (o : Option Exception)
          → Attempts s.history (
              continue
                (λ connection. func connection >>= judging env)
                (continue (λ _. pure (connection_of s.client u)) (constructed o, s)))
      unfolding ◌>>=◌ pure
      wrapped_if s none =
          judging-Attempts s.history (func (connection_of s.client u) s) (sends.at s)
      wrapped_if s (some e) = skipped

      wrapped_request-Attempts : (s : Session) → Attempts s.history (wrapped_request env u func s)
      unfolding wrapped_request new_http_client ◌>>=◌
      wrapped_request-Attempts s = wrapped_if s (env.rejects (connection_of s.client u))

      module _ (h : History) where
        again-Exchanges :
            {f : History} (n : ℕ) (r : Result (Unit {0}) × Session)
            → Attempted h none f
            → r.1.history ≡ auth_asked n ∷ f
            → Exchanges h (continue (λ _. wrapped_request env u func) r)
        again-Exchanges n (ok _, t) p e =
            Exchanges-twice h n (wrapped_request env u func t) p (
              subst (λ g. Attempts g (wrapped_request env u func t)) e (wrapped_request-Attempts t))
        again-Exchanges n (throw x, t) p e = subst (Exchange h none) (sym e) (twice p n skipped)
        again-Exchanges n (fault x, t) p e = subst (Exchange h none) (sym e) (twice p n skipped)

        asked-Exchanges :
            (e : Exception) (handler : Option ℕ) (s : Session)
            → Attempted h none s.history
            → Exchanges h (continue (λ _. wrapped_request env u func) (ask_auth env e handler s))
        unfolding ask_auth ◌>>=◌ lift
        asked-Exchanges e none s p = once p
        asked-Exchanges e (some n) s p =
            again-Exchanges n (run_restore env (env.on_auth_error n s.history) (with_asked env n s))
              p (run_restore-history env (env.on_auth_error n s.history) (with_asked env n s))

        recover-Exchanges :
            (r : Result Reply × Session) → Attempts h r → Exchanges h (recover env u func r)
        unfolding recover again ◌>>=◌
        recover-Exchanges (ok response, s) p = once p
        recover-Exchanges (fault x, s) p = once p
        recover-Exchanges (throw e, s) p = elim (Bool-cases (is_unauthorized e)) [
          | inl refused ↦ rw refused (asked-Exchanges e s.client.auth_error_handler s p)
          | inr other ↦ rw other (once p)
        ]

      pub retry_handler-Exchanges : (s : Session) → Exchanges s.history (retry_handler env u func s)
      unfolding retry_handler
      retry_handler-Exchanges s =
          recover-Exchanges s.history (wrapped_request env u func s) (wrapped_request-Attempts s)

  pub send-SendsOnce :
      (u : Uri) (method : Method) (path : Text)
      → ((c : Client) → Asks (request_of c u method path))
      → SendsOnce u (send env method path)
  unfolding send ◌>>=◌
  send-SendsOnce u method path allowed = record {
    at = λ s. (request_of s.client u method path, allowed s.client, refl, refl);
  }

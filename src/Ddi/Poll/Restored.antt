-- ===== src/Ddi/Poll/Restored.antt =====
-- The poll that is repeated after the credentials were restored.
use up2date_cpp.Base.{ℕ, ◌≡◌, refl, ◌∙◌, some, ◌∷◌}
use up2date_cpp.Outcome.{ok, throw, unauthorized}
use up2date_cpp.Uri.{Uri}
use up2date_cpp.Json.{RapidJson}
use up2date_cpp.Ddi.State.{Client}
use up2date_cpp.Ddi.Session.Monad.{get, auth_asked, History, Environment, Session, ◌>>=◌}
use up2date_cpp.Ddi.Session.Requests.{send, wrapped_request, run_restore, retry_handler}
use up2date_cpp.Ddi.Session.Retry.{
  request_of, attempt, OneRequest, wrapped_request-attempt, with_asked, retry_handler_restored,
}
use up2date_cpp.Ddi.Poll.{get_poll}

module _ (json : RapidJson) (env : Environment) where
  -- The poll makes one request, to the path that the client has when it is sent.
  pub get_poll-OneRequest :
      (u : Uri) → OneRequest env u (get_poll json env) (λ c. request_of c u get c.hawkbit_uri.path)
  unfolding get_poll send ◌>>=◌
  get_poll-OneRequest u = record { connects = λ c. refl; sends = λ s. refl }

  module _ (c : Client) (h : History) where
    -- The poll of a client.
    pub wrapped_poll :
        (start : Client)
        → wrapped_request env start.hawkbit_uri
            (get_poll json env)
            (record { client = c; history = h })
          ≡ attempt env
              (request_of c start.hawkbit_uri get c.hawkbit_uri.path)
              (record { client = c; history = h })
    wrapped_poll start =
        wrapped_request-attempt env start.hawkbit_uri (get_poll json env) _
          (get_poll-OneRequest start.hawkbit_uri) (record { client = c; history = h })

module _ (json : RapidJson) (env : Environment) (c : Client) (h : History) where
  -- A poll that got a 401, and whose handler `n` set another endpoint in the client `d`, is
  -- repeated with the credentials and the path of `d`, but at the server of the old endpoint.
  pub poll_restored :
      (n : ℕ) (d : Client) (refused : Session)
      → let first = request_of c c.hawkbit_uri get c.hawkbit_uri.path in
        let again = request_of d c.hawkbit_uri get d.hawkbit_uri.path in
        let t : Session = record { client = d; history = auth_asked n ∷ refused.history } in
        attempt env first (record { client = c; history = h }) ≡ (throw unauthorized, refused)
        → refused.client.auth_error_handler ≡ some n
        → run_restore env (env.on_auth_error n refused.history) (with_asked env n refused)
          ≡ (ok tt, t)
        → retry_handler env c.hawkbit_uri (get_poll json env) (record { client = c; history = h })
          ≡ attempt env again t
  poll_restored n d refused denied handler restored =
      let t : Session = record { client = d; history = auth_asked n ∷ refused.history } in
      retry_handler_restored env c.hawkbit_uri (get_poll json env) n refused t
        (record { client = c; history = h }) (wrapped_poll json env c h c ∙ denied) handler restored
      ∙ wrapped_poll json env d (auth_asked n ∷ refused.history) c

-- ===== src/Example/Handler/Polls.antt =====
-- A poll of a client with the handler of the examples.
use up2date_cpp.Base.{ℕ, ◌≡◌, ◌∙◌, ap, refl, some}
use up2date_cpp.Outcome.{Result, ok, throw, fault}
use up2date_cpp.Json.{RapidJson}
use up2date_cpp.Ddi.Payload.Polling.{PollingData}
use up2date_cpp.Ddi.Payload.Deployment.{DeploymentBase}
use up2date_cpp.Ddi.State.{Client}
use up2date_cpp.Ddi.Session.Monad.{
  deployment_asked, History, Environment, Session, M, pure, continue, ◌>>=◌,
}
use up2date_cpp.Ddi.Session.Requests.{run_callback}
use up2date_cpp.Ddi.Session.Keeps.{told}
use up2date_cpp.Ddi.Poll.{send_feedback, do_poll}
use up2date_cpp.Ddi.Poll.Deploys.{after_get, Offered, do_poll_offered}
use up2date_cpp.Example.Handler.{on_deployment_action}
use up2date_cpp.Example.Handler.Downloads.{
  all_artifacts, download_all, full_response, on_deployment_action_lem,
}

-- An action that returned one value goes on with it.
continue-pure :
    {A B C : Type 0} (b : B) (next : B → M C) (r : Result A × Session)
    → continue next (continue (λ _. pure b) r) ≡ continue (λ _. next b) r
unfolding pure
continue-pure b next (ok a, s) = refl
continue-pure b next (throw e, s) = refl
continue-pure b next (fault x, s) = refl

module _ (json : RapidJson) (env : Environment) (deployment_listener cancel_listener : ℕ) where
  -- A poll that offers a deployment to a client with the handler of the examples, where the
  -- servers answer at once, downloads the artifacts of all chunks, in order, and then sends the
  -- success that tells of them as feedback on the deployment. Where a download ends with an
  -- exception, so does the poll, and no feedback is sent.
  pub do_poll_downloads :
      (c : Client) (h : History) (polled : PollingData) (deployment : DeploymentBase) (n : ℕ)
      → Offered json env c h polled deployment n
      → env.on_deployment_action n (after_get json env c h polled).history deployment
        ≡ on_deployment_action deployment_listener cancel_listener deployment
      → do_poll json env (record { client = c; history = h })
        ≡ (download_all deployment_listener cancel_listener env
                (all_artifacts deployment_listener cancel_listener deployment.chunks)
              >>= λ _.
                  send_feedback json env polled.follow_uri deployment.id
                    (some (full_response deployment_listener cancel_listener deployment)))
            (told (deployment_asked n deployment) (after_get json env c h polled))
  unfolding ◌>>=◌
  do_poll_downloads c h polled deployment n offered same =
      let feedback = send_feedback json env polled.follow_uri deployment.id in
      let s = told (deployment_asked n deployment) (after_get json env c h polled) in
      do_poll_offered json env c h polled deployment n offered
      ∙ ap (λ callback. continue feedback (run_callback env callback s)) same
      ∙ ap (continue feedback)
          (on_deployment_action_lem deployment_listener cancel_listener env deployment s)
      ∙ continue-pure (some (full_response deployment_listener cancel_listener deployment)) feedback
          _

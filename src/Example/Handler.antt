-- ===== src/Example/Handler.antt =====
-- `Handler` of example/include/basic_handler.hpp, an event handler that downloads everything.
pub mod Downloads
pub mod Polls
use up2date_cpp.Base.{
  ℕ, ◌≡◌, refl, sym, append-nil, true, ◌∙◌, ap, Option, some, List, [], ◌∷◌, ◌++◌, append_assoc,
}
use mathlib.Core.Path.{fun_ext}
use up2date_cpp.Text.{Text, codes}
use up2date_cpp.Outcome.{Result, ok, throw, fault}
use up2date_cpp.Ddi.Payload.Cancel.{CancelAction}
use up2date_cpp.Ddi.Payload.Deployment.{Artifact, Chunk, DeploymentBase}
use up2date_cpp.Ddi.Response.{
  Finished, Execution, Response, ConfigResponse, new_response_builder, add_detail, set_finished,
  set_execution, set_response_delivery_listener, set_ignore_sleep, build_response,
  new_config_builder, add_data, set_ignore_sleep_config, build_config,
}
use up2date_cpp.Ddi.Session.Monad.{
  Callback, return, raise_from, fetch, Answer, finished, failed, to_file, Environment, Session, M,
  pure, ◌>>=◌, ◌>>◌, continue,
}
use up2date_cpp.Ddi.Session.Requests.{run_callback, resume_callback, fetch_artifact}

-- `onConfigRequest`
unfoldable pub on_config_request : Callback (Option ConfigResponse)
on_config_request = return (
    some (
      build_config (
        set_ignore_sleep_config (
          add_data (codes "some3") (codes "TES_TEST_TEST") (
            add_data (codes "some2") (codes "RITMS123") (
              add_data (codes "some1") (codes "new config")
                (add_data (codes "some") (codes "config1") new_config_builder)))))))

-- `onNoActions` only prints.
unfoldable pub on_no_actions : Callback (Unit {0})
on_no_actions = return tt

-- `DeploymentBaseFeedbackDeliveryListener` and `CancelActionFeedbackDeliveryListener`, by number.
module _ (deployment_listener cancel_listener : ℕ) where
  -- `onCancelAction`
  unfoldable pub on_cancel_action : CancelAction → Callback (Option Response)
  on_cancel_action action = return (
      some (
        build_response (
          set_ignore_sleep (
            set_response_delivery_listener (some cancel_listener) (
              add_detail (codes "Really important feedback") (
                add_detail (codes "One more feedback") (
                  add_detail (codes "Some feedback") (
                    set_finished Finished.success
                      (set_execution Execution.closed new_response_builder)))))))))

  abbrev described : Artifact → Text
  described a = a.filename ++ codes " described. Starting download ..."

  abbrev pub downloaded : Artifact → Text
  downloaded a = codes "Downloaded " ++ a.filename

  -- What follows a download; its exception leaves the handler.
  abbrev downloaded_then :
      Artifact
      → Response
      → (Response → Callback (Option Response))
      → Answer
      → Callback (Option Response)
  downloaded_then a builder rest (failed e) = raise_from e
  downloaded_then a builder rest (finished t) = rest (add_detail (downloaded a) builder)

  -- The loop over the artifacts of a chunk, with what is done behind it.
  unfoldable handle_artifacts :
      List Artifact
      → (Response → Callback (Option Response))
      → Response
      → Callback (Option Response)
  handle_artifacts [] rest builder = rest builder
  handle_artifacts (a ∷ artifacts) rest builder =
      fetch a.download_uri (to_file a.filename)
        (downloaded_then a (add_detail (described a) builder) (handle_artifacts artifacts rest))

  -- The loop over the chunks.
  unfoldable handle_chunks :
      List Chunk → (Response → Callback (Option Response)) → Response → Callback (Option Response)
  unfolding handle_artifacts
  handle_chunks [] rest builder = rest builder
  handle_chunks (chunk ∷ chunks) rest builder =
      handle_artifacts chunk.artifacts (handle_chunks chunks rest) builder

  -- The response at the end.
  unfoldable work_done : Response → Callback (Option Response)
  work_done builder = return (
      some (
        build_response (
          set_response_delivery_listener (some deployment_listener) (
            set_finished Finished.success (
              set_execution Execution.closed
                (set_ignore_sleep (add_detail (codes "Work done. Sending response") builder)))))))

  -- `onDeploymentAction`
  unfoldable pub on_deployment_action : DeploymentBase → Callback (Option Response)
  unfolding handle_chunks work_done
  on_deployment_action dp =
      handle_chunks dp.chunks work_done
        (add_detail (codes "Printed deployment base info") new_response_builder)

-- ===== src/Example/Handler/Downloads.antt =====
-- What the handler of the examples downloads and answers.
use up2date_cpp.Base.{
  ℕ, ◌≡◌, refl, sym, append-nil, true, ◌∙◌, ap, Option, some, List, [], ◌∷◌, ◌++◌, append_assoc,
}
use mathlib.Core.Path.{fun_ext}
use up2date_cpp.Text.{Text, codes}
use up2date_cpp.Outcome.{Result, ok, throw, fault}
use up2date_cpp.Ddi.Payload.Deployment.{Artifact, Chunk, DeploymentBase}
use up2date_cpp.Ddi.Response.{
  Finished, Execution, Response, new_response_builder, add_detail, set_finished, set_execution,
  set_response_delivery_listener, set_ignore_sleep, build_response,
}
use up2date_cpp.Ddi.Session.Monad.{
  Callback, to_file, Environment, Session, M, pure, ◌>>=◌, ◌>>◌, continue,
}
use up2date_cpp.Ddi.Session.Requests.{run_callback, resume_callback, fetch_artifact}
use up2date_cpp.Example.Handler.{
  described, downloaded, downloaded_then, handle_artifacts, handle_chunks, work_done,
  on_deployment_action,
}

module _ (deployment_listener cancel_listener : ℕ) where
  -- The artifacts of all chunks, in order.
  abbrev pub all_artifacts : List Chunk → List Artifact
  all_artifacts [] = []
  all_artifacts (chunk ∷ chunks) = chunk.artifacts ++ all_artifacts chunks

  -- What is told of each artifact.
  abbrev pub told : List Artifact → List Text
  told [] = []
  told (a ∷ artifacts) =
      described deployment_listener cancel_listener a
      ∷ downloaded deployment_listener cancel_listener a
      ∷ told artifacts

  -- The response to a deployment whose artifacts were all downloaded.
  abbrev pub full_response : DeploymentBase → Response
  full_response dp = record {
    finished = Finished.success;
    execution = Execution.closed;
    details =
        codes "Printed deployment base info"
        ∷ (told (all_artifacts dp.chunks) ++ codes "Work done. Sending response" ∷ []);
    listener = some deployment_listener;
    ignore_sleep = true;
  }

  module _ (env : Environment) where
    -- The downloads alone, each into the file of its artifact's name.
    abbrev pub download_all : List Artifact → M (Unit {0})
    download_all [] = pure tt
    download_all (a ∷ artifacts) = do
      fetch_artifact env a.download_uri (to_file a.filename)
      download_all artifacts

    -- A builder after some artifacts.
    abbrev after : List Artifact → Response → Response
    after artifacts builder = record builder { details = builder.details ++ told artifacts }

    after_one :
        (a : Artifact) (artifacts : List Artifact) (builder : Response)
        → after artifacts (
            add_detail
              (downloaded deployment_listener cancel_listener a)
              (add_detail (described deployment_listener cancel_listener a) builder))
          ≡ after (a ∷ artifacts) builder
    unfolding add_detail
    after_one a artifacts builder =
        ap (λ d. record builder { details = d })
          (append_assoc (builder.details ++ described deployment_listener cancel_listener a ∷ [])
              (downloaded deployment_listener cancel_listener a ∷ []) (told artifacts)
            ∙ append_assoc builder.details (described deployment_listener cancel_listener a ∷ [])
                (downloaded deployment_listener cancel_listener a ∷ told artifacts))

    -- Behind a download: the rest of the loop, or its exception.
    fetched :
        (a : Artifact) (artifacts : List Artifact) (rest : Response → Callback (Option Response))
        (builder : Response) (r : Result Text × Session)
        → ((b : Response) (s : Session)
            → run_callback env
                (handle_artifacts deployment_listener cancel_listener artifacts rest b)
                s
              ≡ (download_all artifacts >>= λ _. run_callback env (rest (after artifacts b))) s)
        → resume_callback env
            (λ x. run_callback env (
              downloaded_then deployment_listener cancel_listener a
                (add_detail (described deployment_listener cancel_listener a) builder)
                (handle_artifacts deployment_listener cancel_listener artifacts rest)
                x))
            r
          ≡ continue
              (λ _. run_callback env (rest (after (a ∷ artifacts) builder)))
              (continue (λ _. download_all artifacts) r)
    unfolding run_callback ◌>>=◌
    fetched a artifacts rest builder (ok t, s) later =
        later
          (add_detail (downloaded deployment_listener cancel_listener a)
            (add_detail (described deployment_listener cancel_listener a) builder))
          s
        ∙ ap (λ b. continue (λ _. run_callback env (rest b)) (download_all artifacts s))
            (after_one a artifacts builder)
    fetched a artifacts rest builder (throw e, s) later = refl
    fetched a artifacts rest builder (fault e, s) later = refl

    handle_artifacts_lem :
        (artifacts : List Artifact) (rest : Response → Callback (Option Response))
        (builder : Response) (s : Session)
        → run_callback env
            (handle_artifacts deployment_listener cancel_listener artifacts rest builder)
            s
          ≡ (download_all artifacts >>= λ _. run_callback env (rest (after artifacts builder))) s
    unfolding run_callback handle_artifacts ◌>>=◌
    handle_artifacts_lem [] rest builder s =
        ap (λ d. run_callback env (rest (record builder { details = d })) s)
          (sym (append-nil builder.details))
    handle_artifacts_lem (a ∷ artifacts) rest builder s =
        fetched a artifacts rest builder (fetch_artifact env a.download_uri (to_file a.filename) s)
          (λ b t. handle_artifacts_lem artifacts rest b t)

    told-append : (xs ys : List Artifact) → told (xs ++ ys) ≡ told xs ++ told ys
    told-append [] ys = refl
    told-append (a ∷ xs) ys =
        ap
          (λ l.
            described deployment_listener cancel_listener a
            ∷ downloaded deployment_listener cancel_listener a
            ∷ l)
          (told-append xs ys)

    after-append :
        (xs ys : List Artifact) (builder : Response)
        → after ys (after xs builder) ≡ after (xs ++ ys) builder
    after-append xs ys builder =
        ap (λ d. record builder { details = d })
          (append_assoc builder.details (told xs) (told ys)
            ∙ ap (λ l. builder.details ++ l) (sym (told-append xs ys)))

    joined_runs :
        {A : Type 0} (xs ys : List Artifact) (k : M A) (s : Session)
        → (download_all xs >>= λ _. (download_all ys >>= λ _. k)) s
          ≡ (download_all (xs ++ ys) >>= λ _. k) s
    unfolding ◌>>=◌
    joined_runs [] ys k s = refl
    joined_runs (a ∷ xs) ys k s =
        joined_fetch (fetch_artifact env a.download_uri (to_file a.filename) s)
          (λ t. joined_runs xs ys k t)
      where
        joined_fetch :
            (r : Result Text × Session)
            → ((t : Session)
                → (download_all xs >>= λ _. (download_all ys >>= λ _. k)) t
                  ≡ (download_all (xs ++ ys) >>= λ _. k) t)
            → continue (λ _. (download_all ys >>= λ _. k)) (continue (λ _. download_all xs) r)
              ≡ continue (λ _. k) (continue (λ _. download_all (xs ++ ys)) r)
        joined_fetch (ok x, t) later = later t
        joined_fetch (throw e, t) later = refl
        joined_fetch (fault e, t) later = refl

    handle_chunks_lem :
        (chunks : List Chunk) (rest : Response → Callback (Option Response)) (builder : Response)
        (s : Session)
        → run_callback env (handle_chunks deployment_listener cancel_listener chunks rest builder) s
          ≡ (download_all (all_artifacts chunks) >>= λ _.
                run_callback env (rest (after (all_artifacts chunks) builder)))
              s
    unfolding handle_chunks run_callback ◌>>=◌
    handle_chunks_lem [] rest builder s =
        ap (λ d. run_callback env (rest (record builder { details = d })) s)
          (sym (append-nil builder.details))
    handle_chunks_lem (chunk ∷ chunks) rest builder s =
        handle_artifacts_lem chunk.artifacts
          (handle_chunks deployment_listener cancel_listener chunks rest) builder s
        ∙ (ap (λ k. (download_all chunk.artifacts >>= λ _. k) s)
              (fun_ext (λ t. handle_chunks_lem chunks rest (after chunk.artifacts builder) t))
            ∙ (joined_runs chunk.artifacts (all_artifacts chunks) _ s
                ∙ ap
                    (λ b.
                      (download_all (chunk.artifacts ++ all_artifacts chunks) >>= λ _.
                      run_callback env (rest b))
                        s)
                    (after-append chunk.artifacts (all_artifacts chunks) builder)))

    -- The handler downloads the artifacts of all chunks, in order and each into the file of its
    -- name, by the client's own downloads. The first exception leaves the handler, with the client
    -- as it is then, and no later artifact is asked for. Otherwise its response is a success that
    -- tells of each artifact twice, between a first and a last message.
    pub on_deployment_action_lem :
        (dp : DeploymentBase) (s : Session)
        → run_callback env (on_deployment_action deployment_listener cancel_listener dp) s
          ≡ (download_all (all_artifacts dp.chunks) >>= λ _. pure (some (full_response dp))) s
    unfolding on_deployment_action work_done add_detail new_response_builder set_ignore_sleep
        set_execution set_finished set_response_delivery_listener build_response run_callback ◌>>=◌
    on_deployment_action_lem dp s =
        handle_chunks_lem dp.chunks (work_done deployment_listener cancel_listener)
          (add_detail (codes "Printed deployment base info") new_response_builder) s

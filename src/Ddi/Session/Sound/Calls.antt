-- ===== src/Ddi/Session/Sound/Calls.antt =====
-- Downloads and the runs of a handler over the Unix client end in no fault.
use mathlib.Core.Path.{subst}
use up2date_cpp.Base.{◌≢◌, Bool}
use up2date_cpp.Text.{Text}
use up2date_cpp.Outcome.{Fault, Result, ok, throw, fault}
use up2date_cpp.Uri.{Uri}
use up2date_cpp.Ddi.Session.Monad.{
  ◌>>=◌, Event, History, Download, to_file, to_body, to_receiver, Answer, finished, failed,
  Callback, return, raise_from, fetch, send_signal, Environment, Session, M, asks, emit,
}
use up2date_cpp.Ddi.Session.Requests.{
  send_stream, retry_handler, write_piece, receive_piece, get_body, download_to,
  download_with_receiver, fetch_artifact, run_callback, resume_callback,
}
use up2date_cpp.Ddi.Session.Sound.Rules.{
  Fine, Gives, Anything, Gives-pure, Gives-asks, Gives-emit, Gives-bind,
}
use up2date_cpp.Ddi.Session.Sound.{OverUnix}
use up2date_cpp.Ddi.Session.Sound.Requests.{send-Gives, send_stream-Gives, retry_handler-Gives}

module _ (env : Environment) (unix : OverUnix env) where
  answered-Gives :
      (e : Event) (answer : History → Bool) → Gives Anything (emit e >>= λ _. asks answer)
  answered-Gives e answer = Gives-bind (emit e) _ (Gives-emit e) (λ _ _. Gives-asks _ (λ h. tt))

  streamed-Gives :
      (uri : Uri) (receiver : Text → M Bool) (path : Text)
      → ((t : Text) → Gives Anything (receiver t))
      → Gives Anything (retry_handler env uri (send_stream env receiver path))
  streamed-Gives uri receiver path g =
      retry_handler-Gives env unix uri _ (λ k. send_stream-Gives env unix receiver path k g)

  fetch_artifact-Gives : (uri : Uri) (d : Download) → Gives Anything (fetch_artifact env uri d)
  unfolding fetch_artifact download_to get_body download_with_receiver write_piece receive_piece
  fetch_artifact-Gives uri (to_file path) =
      Gives-bind {Q = Anything} (download_to env uri path) _
        (Gives-bind (emit _) _ (Gives-emit _) (λ _ _.
          Gives-bind (retry_handler env uri _) _ (streamed-Gives uri _ _ (λ t. answered-Gives _ _))
            (λ _ _. Gives-pure _ tt)))
        (λ _ _. Gives-pure _ tt)
  fetch_artifact-Gives uri to_body =
      Gives-bind (retry_handler env uri _) _
        (retry_handler-Gives env unix uri _ (λ k. send-Gives env unix _ _ k))
        (λ response _. Gives-pure _ tt)
  fetch_artifact-Gives uri (to_receiver f) =
      Gives-bind {Q = Anything} (download_with_receiver env uri f) _
        (Gives-bind (retry_handler env uri _) _ (streamed-Gives uri _ _ (λ t. answered-Gives _ _))
          (λ _ _. Gives-pure _ tt))
        (λ _ _. Gives-pure _ tt)

  resume_callback-Fine :
      {A : Type 0} (next : Answer → M A) (r : Result Text × Session)
      → ((a : Answer) (t : Session) → Fine Anything (next a t).0)
      → Fine Anything r.0
      → Fine Anything (resume_callback env next r).0
  resume_callback-Fine next (ok t, s) ih f = ih (finished t) s
  resume_callback-Fine next (throw e, s) ih f = ih (failed e) s
  resume_callback-Fine next (fault x, s) ih f = f

  run_callback-Fine :
      {A : Type 0} (c : Callback A) (s : Session) → Fine Anything (run_callback env c s).0
  unfolding run_callback
  run_callback-Fine (return a) s = tt
  run_callback-Fine (raise_from e) s = tt
  run_callback-Fine (fetch uri how next) s =
      resume_callback-Fine (λ a. run_callback env (next a)) (fetch_artifact env uri how s)
        (λ a t. run_callback-Fine (next a) t) ((fetch_artifact-Gives uri how).fine s)
  run_callback-Fine (send_signal signal next) s = run_callback-Fine next _

  Fine-fault : {A : Type 0} (r : Result A) (x : Fault) → Fine Anything r → r ≢ fault x
  Fine-fault r x f e = subst (Fine Anything) e f

  -- Over the Unix client no run of a handler faults: whatever downloads and signals it makes, in
  -- whatever order, with requests that fail, are refused or are repeated with restored credentials,
  -- the run ends with the handler's answer or with an exception.
  pub run_callback_no_fault :
      {A : Type 0} (c : Callback A) (s : Session) (x : Fault) → (run_callback env c s).0 ≢ fault x
  run_callback_no_fault c s x = Fine-fault _ x (run_callback-Fine c s)

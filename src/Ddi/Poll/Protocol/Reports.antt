-- ===== src/Ddi/Poll/Protocol/Reports.antt =====
-- What a poll sends of a handler's answer: the feedback with its listener, and the config data.
use up2date_cpp.Base.{ℕ, ◌≡◌, refl, Option, none, some, [], ◌∷◌, inl, inr, Bool-cases}
use up2date_cpp.Base.Int.{ℤ}
use up2date_cpp.Text.{Text, c_str}
use up2date_cpp.Outcome.{Result, ok, throw, fault}
use up2date_cpp.Multimap.{Multimap}
use up2date_cpp.Uri.{Uri}
use up2date_cpp.Json.{RapidJson}
use up2date_cpp.Ddi.Response.{Response, ConfigResponse}
use up2date_cpp.Ddi.Feedback.{fill_response_document, format_feedback_path}
use up2date_cpp.Ddi.Session.Monad.{
  get, post, Request, Reply, Environment, History, Session, emit, continue, lift, pure, ◌>>=◌,
  dereferenced,
}
use up2date_cpp.Ddi.Session.Requests.{connection_of, send, retry_handler}
use up2date_cpp.Ddi.Session.Retry.{request_of}
use up2date_cpp.Ddi.Session.Exchange.{
  Exchange, Sends, skipped, SendsOnce, send-SendsOnce, Exchanges, retry_handler-Exchanges,
}
use up2date_cpp.Ddi.Poll.{
  json_type, set_ignore, put_config, put_unless_empty, post_feedback, tell_listener,
  is_unexpected_code, catch_code, try_feedback, deliver_feedback, send_feedback, get_poll,
}
use up2date_cpp.Ddi.Poll.Protocol.{
  Polling, Posting, gave_config, gave_answer, put_data, posted, Reaches, puts, posts,
  tells_delivered, tells_undelivered, PollEnds,
}
use up2date_cpp.Ddi.Poll.Protocol.Rules.{Ended, exchange_ends, Polls, Polls-lift, Polls-modify}

module _ (json : RapidJson) (env : Environment) where
  pub get_poll-SendsOnce : (u : Uri) → SendsOnce env (Polling u) u (get_poll json env)
  unfolding get_poll send ◌>>=◌
  get_poll-SendsOnce u = record {
    at = λ s. (request_of s.client u get s.client.hawkbit_uri.path, (s.client, refl), refl, refl);
  }

  posted_with :
      (u : Uri) (body : Text) (formed : Result Text) (s : Session)
      → format_feedback_path u ≡ formed
      → Sends env (Posting u body) s.history (
          continue
            (λ path. send env (post body json_type) path (connection_of s.client u))
            (formed, s))
  unfolding send ◌>>=◌
  posted_with u body (ok path) s e =
      (request_of s.client u (post body json_type) path, (path, e, (s.client, refl)), refl, refl)
  posted_with u body (throw x) s e = skipped
  posted_with u body (fault x) s e = skipped

  post_feedback-SendsOnce :
      (u : Uri) (body : Text) → SendsOnce env (Posting u body) u (post_feedback json env u body)
  unfolding post_feedback ◌>>=◌ lift
  post_feedback-SendsOnce u body = record {
    at = λ s. posted_with u body (format_feedback_path u) s refl;
  }

module _ (json : RapidJson) (env : Environment) (start : Session) where
  -- The listener is told last, of a success or of a code that was caught.
  module _ {Asks : Request → Type 0} {g : History} where
    tell_ends :
        (listener : Option ℕ)
        → ((o : Option Reply) (h : History)
            → Exchange env Asks g o h
            → Reaches json env start (posted listener o) h)
        → (r : Result Reply × Session) → Exchanges env Asks g r
        → PollEnds json env start
            (catch_code json env listener (continue (λ _. tell_listener json env listener) r))
    unfolding catch_code emit pure
    tell_ends none enter (ok response, s) x = record {
      phase = _;
      reached = enter _ _ x;
      whole = tt;
    }
    tell_ends none enter (throw e, s) x = record { phase = _; reached = enter _ _ x }
    tell_ends none enter (fault e, s) x = record { phase = _; reached = enter _ _ x }
    tell_ends (some n) enter (ok response, s) x = record {
      phase = _;
      reached = tells_delivered n response (enter _ _ x);
      whole = tt;
    }
    tell_ends (some n) enter (fault e, s) x = record { phase = _; reached = enter _ _ x }
    tell_ends (some n) enter (throw e, s) x = elim (Bool-cases (is_unexpected_code json env e)) [
      | inl caught ↦
          rw caught (record { phase = _; reached = tells_undelivered n (enter _ _ x); whole = tt })
      | inr other ↦ rw other (record { phase = _; reached = enter _ _ x })
    ]

  deliver_feedback-Polls :
      (u : Uri) (id : ℤ) (r : Response) (document : json.Value)
      → fill_response_document json (some r) json.empty_object id ≡ ok document
      → Polls json env start
          (gave_answer u id (ok (some r)))
          (deliver_feedback json env u (json.write document) r.listener)
  unfolding deliver_feedback try_feedback ◌>>=◌
  deliver_feedback-Polls u id r document filled = record {
    follows = λ s h.
        let body = c_str (json.write document) in
        tell_ends r.listener (λ o g x. posts u id r document h filled x) _
          (retry_handler-Exchanges env (Posting u body) u (post_feedback json env u body)
            (post_feedback-SendsOnce json env u body) s);
  }

  pub send_feedback-Polls :
      (u : Uri) (id : ℤ) (answer : Option Response)
      → Polls json env start (gave_answer u id (ok answer)) (send_feedback json env u id answer)
  unfolding send_feedback ◌>>=◌ lift
  send_feedback-Polls u id none =
      unfold fill_response_document in record { follows = λ s h. record { phase = _; reached = h } }
  send_feedback-Polls u id (some r) =
      Polls-lift json env start (fill_response_document json (some r) json.empty_object id)
        (λ document. deliver_feedback json env u (json.write document) r.listener >>= λ _.
          set_ignore r.ignore_sleep)
        (λ document filled.
          Polls-modify json env start (deliver_feedback json env u (json.write document) r.listener)
            (λ c. record c { ignore_sleep = r.ignore_sleep })
            (deliver_feedback-Polls u id r document filled))

  put_ends :
      (x : Result Reply × Session)
      → Ended json env start (λ response. put_data (some response)) x
      → PollEnds json env start x
  put_ends (ok response, s) h = record { phase = _; reached = h; whole = tt }
  put_ends (throw e, s) h = h
  put_ends (fault e, s) h = h

  put_config-Polls :
      (u : Uri) (req : ConfigResponse)
      → Polls json env start (gave_config u (ok (some req))) (put_config json env u req)
  unfolding put_config
  put_config-Polls u req = Polls-lift json env start _ _ (λ document filled.
      Polls-modify json env start (retry_handler env u _) _ (record {
        follows = λ s h. put_ends _ (
            exchange_ends json env start _ put_data
              (λ o g k reached x. puts u req document reached filled x) s _ h
              (retry_handler-Exchanges env _ u _ (send-SendsOnce env _ u _ u.path (λ c. (c, refl)))
                s));
      }))

  put_unless_empty-Polls :
      (m : Multimap) (u : Uri) (req : ConfigResponse)
      → req.data_map ≡ m
      → Polls json env start (gave_config u (ok (some req))) (put_unless_empty json env m u req)
  unfolding put_unless_empty pure
  put_unless_empty-Polls [] u req e = record {
    follows = λ s h. record { phase = _; reached = h; whole = e };
  }
  put_unless_empty-Polls (_ ∷ _) u req e = put_config-Polls u req

  pub config_answered :
      (u : Uri) (answer : Option ConfigResponse)
      → Polls json env start
          (gave_config u (ok answer))
          (lift (dereferenced answer) >>= λ req. put_unless_empty json env req.data_map u req)
  unfolding ◌>>=◌ lift
  config_answered u none = record { follows = λ s h. record { phase = _; reached = h } }
  config_answered u (some r) = record {
    follows = λ s h. (put_unless_empty-Polls r.data_map u r refl).follows s h;
  }

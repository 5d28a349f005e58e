-- ===== src/Win/Request/Releases.antt =====
-- `do_http_request_ctx` releases what it acquires.
use up2date_cpp.Base.{
  ℕ, zero, suc, ◌+◌, ◌%◌, ◌^◌, ◌≡◌, refl, Bool, true, false, Option, none, some, ◌∷◌, ltb, length,
  inl, inr, Bool-cases, arith,
}
use up2date_cpp.Text.{Text}
use up2date_cpp.Outcome.{Result, ok, throw, fault}
use up2date_cpp.Win.Host.{extract_data_from_host, port_word}
use up2date_cpp.Win.Api.{
  Resource, number, session, connection, request, host_text, method_text, path_text, headers_text,
  buffer, Call, connect_to, open_request, set_certificate, ignore_checks, send_request, acquired,
  released, receive_response, open_session, called, status_asked, available_asked, read_asked,
  Answer, got, failed, WinHttp, WinHistory, Pointers, assigned, all_null, WinState, Proc, and_then,
  ◌>>=◌, ◌>>◌, proceed, crash, note, of_answer,
}
use up2date_cpp.Win.Owns.{
  Owns, EndsIn, Step, Step-bind, Step-proceed, Step-goto_clean, Step-if, Step-acquire, Step-note,
  Step-of_answer, Step-asking,
}
use up2date_cpp.Win.Request.{
  RequestConfig, Handlers, handled, handle, of_result, call, ask_status, status_or_error,
  ask_available, in_buffer, after_read, continue_if, read_round, next_round, if_available,
  receive_loop, receive_if, exchange, request_body, dw_size,
}

-- The pointers that the label `clean` looks at.
abbrev pub is_cleaned : ℕ → Bool
is_cleaned n = ltb n 7

-- The pointers that are set when the label is reached by falling through.
abbrev at_label : Pointers
at_label = assigned headers_text (
    assigned request (
      assigned path_text (
        assigned method_text
          (assigned connection (assigned host_text (assigned session all_null))))))

module _ (mine : ℕ → Bool) (win : WinHttp) (q : Resource) (start : WinHistory) {C : Type 0} where
  pub call-Step : {p : Pointers} (c : Call) → Step mine q start p (call win {C = C} c) p
  unfolding call
  call-Step c =
      Step-asking _ _ _ (λ (s : WinState C). note (called c) >> of_answer (win.answer s.history c))
        (λ s.
          Step-bind _ _ _ (Step-note _ _ _ (called c) tt)
            (λ _. Step-of_answer _ _ _ (win.answer s.history c)))

  pub of_result-Step :
      {A : Type 0} {p : Pointers} (r : Result A) → Step mine q start {C = C} p (of_result r) p
  unfolding of_result
  of_result-Step (ok a) = record { at = λ s e o. (e, o) }
  of_result-Step (throw x) = record { at = λ s e o. tt }
  of_result-Step (fault x) = record { at = λ s e o. tt }

module _ (win : WinHttp) (q : Resource) (start : WinHistory) {C : Type 0} where
  handled-EndsIn :
      {p : Pointers} (r : Result Bool × C) (s : WinState C)
      → s.pointers ≡ p
      → Owns is_cleaned q start s
      → EndsIn is_cleaned q start p (handled r s)
  handled-EndsIn (ok b, c) s e o = (e, record { counts = o.counts; others = o.others })
  handled-EndsIn (throw x, c) s e o = tt
  handled-EndsIn (fault x, c) s e o = tt

  handle-Step : {p : Pointers} (f : C → Result Bool × C) → Step is_cleaned q start p (handle f) p
  unfolding handle
  handle-Step f = record { at = λ s e o. handled-EndsIn (f s.context) s e o }

  ask_status-Step : {p : Pointers} → Step is_cleaned q start p (ask_status win {C = C}) p
  unfolding ask_status
  ask_status-Step =
      Step-asking _ _ _ (λ (s : WinState C). note status_asked >> proceed (win.status s.history))
        (λ s.
          Step-bind _ _ _ (Step-note _ _ _ status_asked tt)
            (λ _. Step-proceed _ _ _ (win.status s.history)))

  ask_available-Step : {p : Pointers} → Step is_cleaned q start p (ask_available win {C = C}) p
  unfolding ask_available
  ask_available-Step =
      Step-asking _ _ _
        (λ (s : WinState C). note available_asked >> of_answer (win.available s.history))
        (λ s.
          Step-bind _ _ _ (Step-note _ _ _ available_asked tt)
            (λ _. Step-of_answer _ _ _ (win.available s.history)))

  status_or_error-Step :
      {p : Pointers} (o : Option ℕ) → Step is_cleaned q start p (status_or_error win {C = C} o) p
  status_or_error-Step none = Step-goto_clean _ _ _ _
  status_or_error-Step (some code) = Step-proceed _ _ _ code

  -- The state behind a buffer that was acquired, read into, and released.
  abbrev around_read : WinState C → C → WinState C
  around_read s c = record s {
    history = released buffer ∷ read_asked dw_size ∷ acquired buffer ∷ s.history;
    context = c;
  }

  around_read-Owns :
      (s : WinState C) (c : C)
      → Owns is_cleaned q start s
      → Owns is_cleaned q start (around_read s c)
  around_read-Owns s c o = record { counts = omega (arith, o.counts); others = o.others }

  abbrev reading : WinState C → WinState C
  reading s = record s { history = read_asked dw_size ∷ acquired buffer ∷ s.history }

  abbrev give_back : Option ℕ → Proc C (Option ℕ)
  give_back broken = note (released buffer) >> proceed broken

  module _ (handlers : Handlers C) where
    received_EndsIn :
        {p : Pointers} (r : Result Bool × C) (s : WinState C)
        → s.pointers ≡ p
        → Owns is_cleaned q start s
        → EndsIn is_cleaned q start p
            (and_then (and_then (handled r (reading s)) (continue_if win handlers)) give_back)
    unfolding ◌>>=◌ note proceed
    received_EndsIn (ok true, c) s e o = (e, around_read-Owns s c o)
    received_EndsIn (ok false, c) s e o = (e, around_read-Owns s c o)
    received_EndsIn (throw x, c) s e o = tt
    received_EndsIn (fault x, c) s e o = tt

    read_EndsIn :
        {p : Pointers} (size : ℕ) (x : Answer Text) (s : WinState C)
        → s.pointers ≡ p
        → Owns is_cleaned q start s
        → EndsIn is_cleaned q start p (
            and_then
              (in_buffer win size x (reading s))
              (λ piece. after_read win handlers piece >>= give_back))
    unfolding ◌>>=◌ note proceed crash handle
    read_EndsIn size (failed code) s e o = (e, around_read-Owns s s.context o)
    read_EndsIn size (got piece) s e o = elim (Bool-cases (ltb size (length piece))) [
      | inl outside ↦ rw outside tt
      | inr inside ↦ rw inside (received_EndsIn (handlers.content_receiver piece s.context) s e o)
    ]

    -- A round of the loop gives its buffer back.
    read_round-Step :
        {p : Pointers} (n : ℕ) → Step is_cleaned q start p (read_round win handlers n) p
    unfolding read_round
    read_round-Step n = record {
      at = λ s e o.
          read_EndsIn ((n + 1) % 2 ^ 32) (win.read (acquired buffer ∷ s.history) dw_size) s e o;
    }

    receive_loop-Step :
        {p : Pointers} (fuel : ℕ) → Step is_cleaned q start p (receive_loop win handlers fuel) p
    unfolding receive_loop
    receive_loop-Step zero = record { at = λ s e o. tt }
    receive_loop-Step {p} (suc fuel) =
        let rest = receive_loop-Step {p = p} fuel in
        Step-bind _ _ _ ask_available-Step (λ n. if_available-Step rest n)
      where
        next_round-Step :
            {m : Proc C ℕ}
            → Step is_cleaned q start p m p
            → (broken : Option ℕ) → Step is_cleaned q start p (next_round win handlers m broken) p
        next_round-Step rest none = rest
        next_round-Step rest (some code) = Step-proceed _ _ _ code

        if_available-Step :
            {m : Proc C ℕ}
            → Step is_cleaned q start p m p
            → (n : ℕ) → Step is_cleaned q start p (if_available win handlers m n) p
        if_available-Step rest zero = Step-proceed _ _ _ 0
        if_available-Step rest (suc n) =
            Step-bind _ _ _ (read_round-Step (suc n)) (next_round-Step rest)

    receive_if-Step :
        {p : Pointers} (fuel : ℕ) (wanted : Bool)
        → Step is_cleaned q start p
            (receive_if win handlers (receive_loop win handlers fuel) wanted)
            p
    receive_if-Step fuel true = receive_loop-Step fuel
    receive_if-Step fuel false = Step-goto_clean _ _ _ _

    exchange-Step :
        {p : Pointers} (fuel : ℕ) (config : RequestConfig) (with_certificate is_https : Bool)
        → p (number request) ≡ false
        → p (number headers_text) ≡ false
        → Step is_cleaned q start p
            (exchange win handlers fuel config with_certificate is_https)
            (assigned headers_text (assigned request p))
    unfolding exchange
    exchange-Step {p} fuel config with_certificate is_https no_request no_text =
        Step-bind _ _ _
          (call-Step is_cleaned win q start
            (open_request (win.widen config.method) (win.widen config.path) is_https))
          (λ _. Step-bind _ _ _ (Step-acquire _ _ _ request refl no_request) (λ _.
            Step-bind _ _ _
              (Step-if _ _ _ is_https
                (call-Step is_cleaned win q start (set_certificate with_certificate))
                (Step-proceed _ _ _ tt))
              (λ _.
                Step-bind _ _ _
                  (Step-if _ _ _ config.verify (Step-proceed _ _ _ tt)
                    (call-Step is_cleaned win q start ignore_checks))
                  (λ _. Step-bind _ _ _ (Step-acquire _ _ _ headers_text refl no_text) (λ _.
                    Step-bind _ _ _
                      (call-Step is_cleaned win q start
                        (send_request (win.widen config.headers) config.body))
                      (λ _.
                        Step-bind _ _ _ (call-Step is_cleaned win q start receive_response) (λ _.
                          Step-bind _ _ _ ask_status-Step (λ status.
                            Step-bind _ _ _ (status_or_error-Step status) (λ code.
                              Step-bind _ _ _ (handle-Step (handlers.ret_code_handler code))
                                (receive_if-Step fuel))))))))))

    pub request_body-Step :
        (fuel : ℕ) (config : RequestConfig) (with_certificate : Bool)
        → Step is_cleaned q start all_null
            (request_body win handlers fuel config with_certificate)
            at_label
    unfolding request_body
    request_body-Step fuel config with_certificate =
        Step-bind _ _ _ (call-Step is_cleaned win q start open_session) (λ _.
          Step-bind _ _ _ (Step-acquire _ _ _ session refl refl) (λ _.
            Step-bind _ _ _
              (of_result-Step is_cleaned win q start
                (extract_data_from_host config.host config.scheme))
              (λ target. Step-bind _ _ _ (Step-acquire _ _ _ host_text refl refl) (λ _.
                Step-bind _ _ _
                  (call-Step is_cleaned win q start
                    (connect_to (win.widen target.host) (port_word target.port)))
                  (λ _. Step-bind _ _ _ (Step-acquire _ _ _ connection refl refl) (λ _.
                    Step-bind _ _ _ (Step-acquire _ _ _ method_text refl refl) (λ _.
                      Step-bind _ _ _ (Step-acquire _ _ _ path_text refl refl) (λ _.
                        exchange-Step fuel config with_certificate target.is_https refl refl))))))))

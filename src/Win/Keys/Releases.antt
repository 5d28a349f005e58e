-- ===== src/Win/Keys/Releases.antt =====
-- The statements of `do_http_request_mtls_` against the resources that they hold, except for the
-- decoded text and the provider of the keys.
use up2date_cpp.Base.{
  ℕ, zero, suc, ◌+◌, ◌≡◌, refl, true, false, Option, none, some, ◌==◌, length, arith,
}
use up2date_cpp.Text.{Text, c_str}
use up2date_cpp.Outcome.{Result, ok, throw, fault}
use up2date_cpp.Win.Api.{
  Resource, number, same, store, decoded, key_blob, own_context, chain_context, provider, key,
  open_store, set_key_info, decode_size, decode, decode_key_size, decode_key, create_context,
  add_context, import_key, acquire_provider, existing_keys, delete_keys, new_keys, called, acquired,
  Answer, got, failed, WinHttp, WinHistory, Pointers, all_null, assigned, WinState, Proc, ◌>>◌,
  note, release,
}
use up2date_cpp.Win.Owns.{
  Owns, EndsIn, Step, Step-bind, Step-proceed, Step-goto_clean, Step-if, Step-acquire, Step-note,
  Step-asking,
}
use up2date_cpp.Win.Request.{RequestConfig, Handlers, do_http_request_ctx, RequestEnd}
use up2date_cpp.Win.Request.Releases.{call-Step, of_result-Step}
use up2date_cpp.Win.Request.Clean.{Balanced, do_http_request_ctx_releases}
use up2date_cpp.Win.Keys.{
  KeyPair, WinCrypt, nte_bad_keyset, begin_certificate, strstr, advance, read_certificate,
  provider_found, open_provider, read_key, chain_or_done, add_certificate, load_chain, jump,
  returned, request_with_certificate, mtls_body,
}
use up2date_cpp.Win.Keys.Listed.{is_cleared, ask-Step, Step-release_null, clear_store-Step}

module _ (win : WinHttp) (crypt : WinCrypt) (q : Resource) (start : WinHistory) {C : Type 0}
    (not_text : same decoded q ≡ false) (not_provider : same provider q ≡ false) where
  -- What is done to another resource does not count.
  Step-other :
      {p : Pointers} (r : Resource)
      → same r q ≡ false
      → Step is_cleared q start {C = C} p (release r) p
  unfolding note
  Step-other r h = record {
    at = λ s e o. (e, record { counts = ground (arith, o.counts); others = o.others });
  }

  Step-other_acquired :
      {p : Pointers} (r : Resource)
      → same r q ≡ false
      → Step is_cleared q start {C = C} p (note (acquired r)) p
  unfolding note
  Step-other_acquired r h = record {
    at = λ s e o. (e, record { counts = ground (arith, o.counts); others = o.others });
  }

  read_certificate-Step :
      {p : Pointers} (crt : Text)
      → p (number decoded) ≡ false
      → p (number own_context) ≡ false
      → Step is_cleared q start {C = C} p
          (read_certificate win crypt crt)
          (assigned own_context (assigned decoded p))
  unfolding read_certificate
  read_certificate-Step crt no_text no_context =
      Step-bind _ _ _ (ask-Step win crypt q start (decode_size crt) (λ h. crypt.text_size h crt))
        (λ size. Step-bind _ _ _ (Step-acquire _ _ _ decoded refl no_text) (λ _.
          Step-bind _ _ _ (ask-Step win crypt q start (decode crt) (λ h. crypt.text_bytes h crt))
            (λ bytes.
              Step-bind _ _ _ (call-Step is_cleared win q start (create_context bytes)) (λ _.
                Step-bind _ _ _ (Step-acquire _ _ _ own_context refl no_context)
                  (λ _. Step-proceed _ _ _ (bytes, size.1))))))

  provider_found-Step :
      {p : Pointers} (a : Answer (Unit {0}))
      → p (number provider) ≡ false
      → Step is_cleared q start p (provider_found win crypt {C = C} a) (assigned provider p)
  provider_found-Step (failed code) h =
      Step-if _ _ _ (code == nte_bad_keyset)
        (Step-bind _ _ _ (call-Step is_cleared win q start (acquire_provider new_keys))
          (λ _. Step-acquire _ _ _ provider refl h))
        (Step-goto_clean _ _ _ code)
  provider_found-Step (got _) h = Step-bind _ _ _ (Step-acquire _ _ _ provider refl h) (λ _.
      Step-bind _ _ _ (Step-other provider not_provider) (λ _.
        Step-bind _ _ _ (call-Step is_cleared win q start (acquire_provider delete_keys)) (λ _.
          Step-bind _ _ _ (call-Step is_cleared win q start (acquire_provider new_keys))
            (λ _. Step-other_acquired provider not_provider))))

  open_provider-Step :
      {p : Pointers}
      → p (number provider) ≡ false
      → Step is_cleared q start p (open_provider win crypt {C = C}) (assigned provider p)
  unfolding open_provider
  open_provider-Step h =
      Step-asking _ _ _
        (λ (s : WinState C).
          note (called (acquire_provider existing_keys))
          >> provider_found win crypt (win.answer s.history (acquire_provider existing_keys)))
        (λ s.
          Step-bind _ _ _ (Step-note _ _ _ (called (acquire_provider existing_keys)) tt)
            (λ _. provider_found-Step (win.answer s.history (acquire_provider existing_keys)) h))

  read_key-Step :
      {p : Pointers} (text : Text)
      → p (number key_blob) ≡ false
      → p (number key) ≡ false
      → Step is_cleared q start {C = C} p
          (read_key win crypt text)
          (assigned key (assigned key_blob p))
  unfolding read_key
  read_key-Step text no_blob no_key =
      Step-bind _ _ _ (ask-Step win crypt q start (decode_size text) (λ h. crypt.text_size h text))
        (λ size. Step-bind _ _ _ (Step-other decoded not_text) (λ _.
          Step-bind _ _ _ (Step-other_acquired decoded not_text) (λ _.
            Step-bind _ _ _
              (ask-Step win crypt q start (decode text) (λ h. crypt.text_bytes h text))
              (λ bytes.
                Step-bind _ _ _
                  (ask-Step win crypt q start (decode_key_size bytes)
                    (λ h. crypt.blob_size h bytes))
                  (λ blob_size. Step-bind _ _ _ (Step-acquire _ _ _ key_blob refl no_blob) (λ _.
                    Step-bind _ _ _
                      (ask-Step win crypt q start (decode_key bytes)
                        (λ h. crypt.blob_bytes h bytes))
                      (λ blob.
                        Step-bind _ _ _ (call-Step is_cleared win q start (import_key blob)) (λ _.
                          Step-bind _ _ _ (Step-acquire _ _ _ key refl no_key)
                            (λ _. call-Step is_cleared win q start set_key_info)))))))))

  add_certificate-Step :
      {p : Pointers} (pos : Text)
      → p (number chain_context) ≡ false
      → Step is_cleared q start {C = C} p (add_certificate win crypt pos) p
  unfolding add_certificate
  add_certificate-Step pos free = Step-bind _ _ _ (Step-other decoded not_text) (λ _.
      Step-bind _ _ _ (ask-Step win crypt q start (decode_size pos) (λ h. crypt.text_size h pos))
        (λ size. Step-bind _ _ _ (Step-other_acquired decoded not_text) (λ _.
          Step-bind _ _ _ (ask-Step win crypt q start (decode pos) (λ h. crypt.text_bytes h pos))
            (λ bytes.
              Step-bind _ _ _ (call-Step is_cleared win q start (create_context bytes)) (λ _.
                Step-bind _ _ _ (Step-acquire _ _ _ chain_context refl free) (λ _.
                  Step-bind _ _ _ (call-Step is_cleared win q start (add_context bytes)) (λ _.
                    Step-bind _ _ _ (Step-release_null win crypt q start chain_context free)
                      (λ _. Step-proceed _ _ _ size.1))))))))

  load_chain-Step :
      {p : Pointers} (fuel : ℕ) (pos : Text) (skip : ℕ)
      → p (number chain_context) ≡ false
      → Step is_cleared q start {C = C} p (load_chain win crypt fuel pos skip) p
  unfolding load_chain
  load_chain-Step zero pos skip free = record { at = λ s e o. tt }
  load_chain-Step {p} (suc fuel) pos skip free =
      Step-bind _ _ _ (of_result-Step _ win _ _ (advance (skip + 1) pos)) (λ next.
        found_Step (strstr next begin_certificate) (λ found.
          Step-bind _ _ _ (add_certificate-Step found free)
            (λ skipped. load_chain-Step fuel found skipped free)))
    where
      found_Step :
          {f : Text → Proc C (Unit {0})} (o : Option Text)
          → ((found : Text) → Step is_cleared q start p (f found) p)
          → Step is_cleared q start p (chain_or_done win crypt f o) p
      found_Step none later = Step-proceed _ _ _ tt
      found_Step (some found) later = later found

  module _ (handlers : Handlers C) where
    returned-EndsIn :
        {p : Pointers} (e : RequestEnd C) (s : WinState C)
        → s.pointers ≡ p
        → Owns is_cleared q start s
        → ((code : ℕ) → e.outcome ≡ some (ok code) → Balanced q s.history e.history)
        → EndsIn is_cleared q start p (returned win crypt handlers e s)
    returned-EndsIn {p} e s same o h = ending e.outcome refl
      where
        ending :
            (r : Option (Result ℕ))
            → e.outcome ≡ r
            → EndsIn is_cleared q start p
                (jump win crypt handlers r, record s { history = e.history; context = e.context })
        ending none k = tt
        ending (some (throw x)) k = tt
        ending (some (fault x)) k = tt
        ending (some (ok code)) k =
            (same, record { counts = omega (arith, o.counts, h code k); others = o.others })

    request_with_certificate-Step :
        {p : Pointers} (fuel : ℕ) (config : RequestConfig)
        → Step is_cleared q start p (request_with_certificate win crypt handlers fuel config) p
    unfolding request_with_certificate
    request_with_certificate-Step fuel config = record {
      at = λ s e o.
          returned-EndsIn (do_http_request_ctx win handlers fuel config true s.history s.context) s
            e o
            (λ code k.
              do_http_request_ctx_releases win handlers fuel config true s.history s.context code q
                k);
    }

    pub mtls_body-Step :
        (store_fuel fuel : ℕ) (config : RequestConfig) (pair : KeyPair)
        → Step is_cleared q start all_null
            (mtls_body win crypt handlers store_fuel fuel config pair)
            (assigned key (
              assigned key_blob (
                assigned provider
                  (assigned own_context (assigned decoded (assigned store all_null))))))
    unfolding mtls_body
    mtls_body-Step store_fuel fuel config pair =
        Step-bind _ _ _ (call-Step is_cleared win q start open_store) (λ _.
          Step-bind _ _ _ (Step-acquire _ _ _ store refl refl) (λ _.
            Step-bind _ _ _ (clear_store-Step win crypt q start store_fuel false refl) (λ _.
              Step-bind _ _ _ (read_certificate-Step pair.crt refl refl) (λ own.
                Step-bind _ _ _ (open_provider-Step refl) (λ _.
                  Step-bind _ _ _ (read_key-Step pair.key refl refl) (λ _.
                    Step-bind _ _ _
                      (load_chain-Step (suc (length (c_str pair.crt))) (c_str pair.crt) own.1 refl)
                      (λ _.
                        Step-bind _ _ _ (call-Step is_cleared win q start (add_context own.0))
                          (λ _. request_with_certificate-Step fuel config))))))))

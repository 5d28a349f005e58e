-- ===== src/Win/Keys.antt =====
-- `do_http_request_mtls_`, `do_http_request` and `do_http_request_mtls` of
-- modules/src/win/win_http.c: the certificates and the key of the client are put into the store and
-- the key container of the system, then the request is made.
pub mod Chain
pub mod Ends
pub mod Clear
pub mod Listed
pub mod Releases
pub mod Store
pub mod Twice
use up2date_cpp.Base.{
  ℕ, zero, suc, ◌+◌, Bool, true, false, Option, none, some, [], ◌∷◌, ◌&&◌, ◌==◌, length, ltb,
  if◌then◌else◌,
}
use up2date_cpp.Text.{Text, codes, c_str}
use up2date_cpp.Outcome.{Result, ok, throw, fault, out_of_bounds}
use up2date_cpp.Win.Api.{
  store, decoded, key_blob, own_context, chain_context, listed_context, provider, key, Resource,
  number, Call, open_store, delete_listed, list_store, set_key_info, decode_size, decode,
  decode_key_size, decode_key, create_context, add_context, import_key, acquire_provider,
  existing_keys, delete_keys, new_keys, called, acquired, released, Answer, got, failed, WinHttp,
  WinHistory, nullified, assigned, WinState, Jump, go, thrown, crashed, unfinished, Proc, and_then,
  ◌>>=◌, ◌>>◌, proceed, goto_clean, note, acquire, release, release_if, of_answer,
}
unfoldable pub use up2date_cpp.Win.Strings.{begin_certificate, starts_with, strstr, advance}
use up2date_cpp.Win.Request.{
  RequestConfig, Handlers, of_result, call, RequestEnd, started, finish, do_http_request_ctx,
}

-- `struct mtls_keypair`, each text with its size.
pub record KeyPair : Type 0 where
  pub crt : Text
  pub key : Text

-- What the cryptography of the system gives, by all that happened before: whether there is a next
-- certificate in the store, what `CryptStringToBinaryA` needs (with the bytes that it skips) and
-- writes, and what `CryptDecodeObjectEx` needs and writes.
pub record WinCrypt : Type 0 where
  pub lists : WinHistory → Bool
  pub text_size : WinHistory → Text → Answer (ℕ × ℕ)
  pub text_bytes : WinHistory → Text → Answer Text
  pub blob_size : WinHistory → Text → Answer ℕ
  pub blob_bytes : WinHistory → Text → Answer Text

-- `NTE_BAD_KEYSET`
abbrev pub nte_bad_keyset : ℕ
nte_bad_keyset = 2148073494

module _ {C : Type 0} where
  -- A call with a result.
  unfoldable pub ask : {A : Type 0} → Call → (WinHistory → Answer A) → Proc C A
  unfolding ◌>>=◌ note proceed goto_clean
  ask c f s = (note (called c) >> of_answer (f s.history)) s

  -- A resource is freed and its pointer is set to NULL.
  unfoldable pub release_null : Resource → Proc C (Unit {0})
  release_null r s =
      (go tt, record s { pointers = nullified r s.pointers; history = released r ∷ s.history })

module _ (win : WinHttp) (crypt : WinCrypt) {C : Type 0} where
  -- A context is given back where one is held, and one is given where there is a next one.
  abbrev pub enumerated : Bool → Bool → Proc C Bool
  enumerated held found = do
    note (called list_store)
    if held then release_null listed_context else proceed tt
    if found then acquire listed_context else proceed tt
    proceed found

  -- `pCertContext = CertEnumCertificatesInStore(hMemStore, pCertContext)`, which frees the context
  -- that it is given.
  unfoldable pub enumerate : Proc C Bool
  unfolding ◌>>=◌ note proceed acquire release_null
  enumerate s = enumerated (s.pointers (number listed_context)) (crypt.lists s.history) s

  abbrev pub clear_listed : Proc C (Unit {0}) → Bool → Proc C (Unit {0})
  clear_listed rest false = proceed tt
  clear_listed rest true = do call win delete_listed; enumerate; rest

  -- The `while` loop that clears the store. `CertDeleteCertificateFromStore` frees the duplicate
  -- that it is given.
  unfoldable pub clear_store : ℕ → Proc C (Unit {0})
  unfolding enumerate call
  clear_store zero = λ s. (unfinished, s)
  clear_store (suc fuel) = enumerate >>= clear_listed (clear_store fuel)

  -- The certificate of the client: the bytes of its context, and what was skipped in front of it.
  unfoldable pub read_certificate : Text → Proc C (Text × ℕ)
  unfolding ask call
  read_certificate crt = do
    size ← ask (decode_size crt) (λ h. crypt.text_size h crt)
    acquire decoded
    bytes ← ask (decode crt) (λ h. crypt.text_bytes h crt)
    call win (create_context bytes)
    acquire own_context
    proceed (bytes, size.1)

  -- The two branches behind the first `CryptAcquireContextA`.
  abbrev pub provider_found : Answer (Unit {0}) → Proc C (Unit {0})
  provider_found (failed code) =
      if code == nte_bad_keyset
      then (do call win (acquire_provider new_keys); acquire provider)
      else goto_clean code
  provider_found (got _) = do
    acquire provider
    release provider
    call win (acquire_provider delete_keys)
    call win (acquire_provider new_keys)
    note (acquired provider)

  unfoldable pub open_provider : Proc C (Unit {0})
  unfolding ◌>>=◌ note call acquire goto_clean
  open_provider s =
      (note (called (acquire_provider existing_keys))
          >> provider_found (win.answer s.history (acquire_provider existing_keys)))
        s

  -- The private key: from its text to the key container, and into the certificate's context.
  unfoldable pub read_key : Text → Proc C (Unit {0})
  unfolding ask call
  read_key text = do
    size ← ask (decode_size text) (λ h. crypt.text_size h text)
    release decoded
    note (acquired decoded)
    bytes ← ask (decode text) (λ h. crypt.text_bytes h text)
    blob_size ← ask (decode_key_size bytes) (λ h. crypt.blob_size h bytes)
    acquire key_blob
    blob ← ask (decode_key bytes) (λ h. crypt.blob_bytes h bytes)
    call win (import_key blob)
    acquire key
    call win set_key_info

  abbrev pub chain_or_done : (Text → Proc C (Unit {0})) → Option Text → Proc C (Unit {0})
  chain_or_done f none = proceed tt
  chain_or_done f (some pos) = f pos

  -- One round of the loop over the chain, from the place where a certificate begins.
  unfoldable pub add_certificate : Text → Proc C ℕ
  unfolding ask call release_null
  add_certificate pos = do
    release decoded
    size ← ask (decode_size pos) (λ h. crypt.text_size h pos)
    note (acquired decoded)
    bytes ← ask (decode pos) (λ h. crypt.text_bytes h pos)
    call win (create_context bytes)
    acquire chain_context
    call win (add_context bytes)
    release_null chain_context
    proceed size.1

  -- `while ((pos = strstr(pos + pdwSkip + 1, "-----BEGIN CERTIFICATE-----")))`
  unfoldable pub load_chain : ℕ → Text → ℕ → Proc C (Unit {0})
  unfolding add_certificate advance strstr of_result
  load_chain zero pos skip = λ s. (unfinished, s)
  load_chain (suc fuel) pos skip = do
    next ← of_result (advance (skip + 1) pos)
    chain_or_done (λ found. add_certificate found >>= load_chain fuel found)
        (strstr next begin_certificate)

  module _ (handlers : Handlers C) where
    abbrev pub jump : Option (Result ℕ) → Jump ℕ
    jump none = unfinished
    jump (some (ok code)) = go code
    jump (some (throw x)) = thrown x
    jump (some (fault x)) = crashed x

    abbrev pub returned : RequestEnd C → WinState C → Jump ℕ × WinState C
    returned e s = (jump e.outcome, record s { history = e.history; context = e.context })

    -- `dwRetCode = do_http_request_ctx(config, ctx_)`
    unfoldable pub request_with_certificate : ℕ → RequestConfig → Proc C ℕ
    unfolding do_http_request_ctx
    request_with_certificate fuel config s =
        returned (do_http_request_ctx win handlers fuel config true s.history s.context) s

    -- The statements before the label, with one bound for the store and one for the content.
    unfoldable pub mtls_body : ℕ → ℕ → RequestConfig → KeyPair → Proc C ℕ
    unfolding clear_store read_certificate open_provider read_key load_chain
        request_with_certificate
    mtls_body store_fuel fuel config pair = do
      call win open_store
      acquire store
      clear_store store_fuel
      own ← read_certificate pair.crt
      open_provider
      read_key pair.key
      load_chain (suc (length (c_str pair.crt))) (c_str pair.crt) own.1
      call win (add_context own.0)
      request_with_certificate fuel config

-- The statements behind the label `clear`.
unfoldable pub clear : {C : Type 0} → Proc C (Unit {0})
unfolding ◌>>=◌ release_if
clear = do
  release_if decoded
  release_if key_blob
  release_if listed_context
  release_if own_context
  release_if chain_context
  release_if key
  release_if provider
  release_if store

-- `do_http_request_mtls_`
unfoldable pub do_http_request_with_keys :
    WinHttp
    → WinCrypt
    → {C : Type 0} → Handlers C
    → ℕ
    → ℕ
    → RequestConfig
    → KeyPair
    → WinHistory
    → C
    → RequestEnd C
unfolding mtls_body finish clear
do_http_request_with_keys win crypt handlers store_fuel fuel config pair history context =
    finish clear
      (mtls_body win crypt handlers store_fuel fuel config pair (started history context))

-- `do_http_request_mtls`, with `do_http_request` where there is no key pair.
unfoldable pub do_http_request_mtls :
    WinHttp
    → WinCrypt
    → {C : Type 0} → Handlers C
    → ℕ
    → ℕ
    → RequestConfig
    → Option KeyPair
    → WinHistory
    → C
    → RequestEnd C
unfolding do_http_request_with_keys
do_http_request_mtls win crypt handlers store_fuel fuel config none history context =
    do_http_request_ctx win handlers fuel config false history context
do_http_request_mtls win crypt handlers store_fuel fuel config (some pair) history context =
    do_http_request_with_keys win crypt handlers store_fuel fuel config pair history context

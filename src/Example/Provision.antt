-- ===== src/Example/Provision.antt =====
-- example/ritms_auth/main.cpp and example/ritms_ott/main.cpp: programs that fetch credentials and
-- print them.
pub mod Retries
use up2date_cpp.Base.{ℕ, zero, suc, Option, none, some, [], ◌++◌}
use up2date_cpp.Text.{Text, codes, c_str}
use up2date_cpp.Outcome
use up2date_cpp.Outcome.{Exception, Fault, Result, ok, throw, fault, runtime_error}
use up2date_cpp.Json.{RapidJson}
use up2date_cpp.Ddi.Session.Monad.{Request, HttpResult}
use up2date_cpp.Dps.{
  ProvisioningData, ProvisioningClient, new_provisioning_builder, set_auth_crt,
  set_provisioning_endpoint, add_provisioning_header, build_provisioning, do_provisioning,
  build_cloud_exchanger, exchange_token,
}

-- How a program ends early: with a code that it gave to `exit`, with an
-- exception that nothing catches, or with a fault.
pub data ProgramEnd : Type 0 where
  exited : ℕ → ProgramEnd
  uncaught : Exception → ProgramEnd
  faulted : Fault → ProgramEnd

-- A statement of `main`: it goes on with a value, or the program ends. What a program prints at its
-- end is its value.
pub data Program (A : Type 0) : Type 0 where
  value : A → Program A
  ended : ProgramEnd → Program A

infixl 5 ◌>>=◌
abbrev pub ◌>>=◌ : {A B : Type 0} → Program A → (A → Program B) → Program B
value a >>= f = f a
ended e >>= f = ended e

-- An exception that leaves `main`.
abbrev pub or_uncaught : {A : Type 0} → Result A → Program A
or_uncaught (ok a) = value a
or_uncaught (throw e) = ended (uncaught e)
or_uncaught (fault x) = ended (faulted x)

-- The environment variables and the files of the system.
pub record System : Type 0 where
  pub getenv : Text → Option Text
  pub content : Text → Option Text

abbrev value_or : {A : Type 0} → ProgramEnd → Option A → Program A
value_or e none = ended e
value_or e (some a) = value a

-- `getEnvOrExit`
unfoldable pub get_env_or_exit : System → Text → Program Text
get_env_or_exit system name = value_or (exited 2) (system.getenv name)

-- The content of a file, or the exception where it cannot be opened.
unfoldable read_file : System → Text → Program Text
read_file system path =
    value_or (uncaught (runtime_error (codes "fail: cannot open file :" ++ path)))
      (system.content path)

-- The client that `main` builds from the variables and the certificate.
unfoldable pub provisioning_client : System → Program ProvisioningClient
unfolding get_env_or_exit read_file new_provisioning_builder
provisioning_client system = do
  certificate_path ← get_env_or_exit system (codes "CERT_PATH")
  endpoint ← get_env_or_exit system (codes "PROVISIONING_ENDPOINT")
  token ← get_env_or_exit system (codes "X_APIG_TOKEN")
  crt ← read_file system certificate_path
  builder ← or_uncaught (set_provisioning_endpoint endpoint new_provisioning_builder)
  value (
      build_provisioning
        (add_provisioning_header (codes "X-Apig-AppCode") token (set_auth_crt crt builder)))

abbrev retry_attempts : ℕ
retry_attempts = 5

-- One more pause.
abbrev pub paused : Result (Option ProvisioningData) × ℕ → Result (Option ProvisioningData) × ℕ
paused (r, pauses) = (r, suc pauses)

-- An attempt and, behind its exception, a pause and the attempts that are left.
abbrev attempted :
    Result ProvisioningData
    → Result (Option ProvisioningData) × ℕ
    → Result (Option ProvisioningData) × ℕ
attempted (ok payload) rest = (ok (some payload), 0)
attempted (throw e) rest = paused rest
attempted (fault x) rest = (fault x, 0)

-- The `for` loop, from attempt `i` on, with the number of attempts that are left: the payload or a
-- null pointer, and how often the loop paused.
unfoldable pub retry : (ℕ → Result ProvisioningData) → ℕ → ℕ → Result (Option ProvisioningData) × ℕ
retry attempt i zero = (ok none, 0)
retry attempt i (suc left) = let rest = retry attempt (suc i) left in attempted (attempt i) rest

abbrev payload_or_exit : Result (Option ProvisioningData) → Program ProvisioningData
payload_or_exit (ok none) = ended (exited 102)
payload_or_exit (ok (some payload)) = value payload
payload_or_exit (throw e) = ended (uncaught e)
payload_or_exit (fault x) = ended (faulted x)

module _ (json : RapidJson) where
  -- The document that is printed.
  unfoldable pub provisioning_document : ProvisioningData → json.Value
  provisioning_document payload =
      let key_pair =
        json.add_member
          (json.add_member json.empty_object (codes "certificate")
            (json.string payload.key_pair.crt))
          (codes "key") (json.string payload.key_pair.key) in
      json.add_member (json.add_member json.empty_object (codes "mTLSKeypair") key_pair)
        (codes "up2DateEndpoint") (json.string payload.up2date_endpoint)

  -- `main` of ritms_auth; the service answers by the number of the attempt.
  unfoldable pub ritms_auth : System → (ℕ → Request → Result HttpResult) → Program Text
  unfolding provisioning_client retry do_provisioning provisioning_document
  ritms_auth system answers = do
    client ← provisioning_client system
    payload ←
        payload_or_exit (retry (λ i. do_provisioning json (answers i) client) 0 retry_attempts).0
    value (c_str (json.write (provisioning_document payload)))

  abbrev token_or_exit : Result Text → Program Text
  token_or_exit (ok token) = value token
  token_or_exit (throw e) = ended (exited 3)
  token_or_exit (fault x) = ended (faulted x)

  -- `main` of ritms_ott
  unfoldable pub ritms_ott : System → (Request → Result HttpResult) → Program Text
  unfolding get_env_or_exit build_cloud_exchanger exchange_token
  ritms_ott system answer = do
    token ← get_env_or_exit system (codes "TOKEN")
    endpoint ← get_env_or_exit system (codes "EXCHANGER_ENDPOINT")
    token_or_exit
        (Outcome.◌>>=◌ (build_cloud_exchanger endpoint token) (exchange_token json answer))

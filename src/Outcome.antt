-- ===== src/Outcome.antt =====
-- How a call of the library ends: with a value, with a C++ exception, or with a fault, which is
-- a state that no `catch` sees. The exceptions of ddi/include/ddi/hawkbit_exceptions.hpp and of
-- the standard library, with the text that `what()` gives.
use up2date_cpp.Base.{ℕ, ◌≡◌, refl, Bool, true, false, Option, none, some, [], ◌++◌}
use up2date_cpp.Base.Int.{pos}
use up2date_cpp.Text.{Text, codes}
use up2date_cpp.Text.Scan.{to_string}

-- `httpclient::Error`
pub data HttpError : Type 0 where
  success unknown connection bind_ip_address read write exceed_redirect_count canceled : HttpError
  ssl_connection ssl_loading_certs ssl_server_verification : HttpError
  unsupported_multipart_boundary_chars compression : HttpError

-- `(int) error`: the place in the enumeration.
unfoldable pub error_num : HttpError → ℕ
error_num HttpError.success = 0
error_num HttpError.unknown = 1
error_num HttpError.connection = 2
error_num HttpError.bind_ip_address = 3
error_num HttpError.read = 4
error_num HttpError.write = 5
error_num HttpError.exceed_redirect_count = 6
error_num HttpError.canceled = 7
error_num HttpError.ssl_connection = 8
error_num HttpError.ssl_loading_certs = 9
error_num HttpError.ssl_server_verification = 10
error_num HttpError.unsupported_multipart_boundary_chars = 11
error_num HttpError.compression = 12

abbrev pub is_success : HttpError → Bool
is_success HttpError.success = true
is_success _ = false

-- `foreign` stands for an exception that a user's callback throws.
pub data Exception : Type 0 where
  runtime_error : Text → Exception
  invalid_argument out_of_range : Exception
  unauthorized : Exception
  http_unexpected_code : ℕ → ℕ → Exception
  unexpected_payload wrong_response : Exception
  http_lib_error : ℕ → Exception
  client_initialize_error : Text → Exception
  httplib_error provisioning_error : ℕ → Exception
  up2date_cloud_error : Text → Exception
  foreign : ℕ → Exception

-- A failed assertion of the JSON library, a signed overflow, a null pointer or a place outside a
-- string that is read.
pub data Fault : Type 0 where
  assertion overflow null_pointer out_of_bounds : Fault

pub data Result {ℓ} (A : Type ℓ) : Type ℓ where
  ok : A → Result A
  throw : Exception → Result A
  fault : Fault → Result A

-- An exception or a fault skips what comes behind.
infixl 5 ◌>>=◌ ◌>>◌
abbrev pub ◌>>=◌ {ℓ₁ ℓ₂} :
    {First : Type ℓ₁} {Next : Type ℓ₂} (first : Result First) (next : First → Result Next)
    → Result Next
fault cause >>= next = fault cause
throw error >>= next = throw error
ok value >>= next = next value

abbrev pub ◌>>◌ {ℓ₂} :
    {Next : Type ℓ₂} (first : Result (Unit {0})) (next : Result Next) → Result Next
first >> next = first >>= λ _. next

abbrev pub throw_if : Bool → Exception → Result (Unit {0})
throw_if true e = throw e
throw_if false e = ok tt

-- A value that an assertion of the JSON library guards.
abbrev pub asserted {ℓ} : {A : Type ℓ} → Option A → Result A
asserted none = fault assertion
asserted (some a) = ok a

-- `catch (std::exception &) { throw e; }` around a call.
abbrev pub rethrow_as {ℓ} : {A : Type ℓ} → Exception → Result A → Result A
rethrow_as e (ok a) = ok a
rethrow_as e (throw _) = throw e
rethrow_as e (fault f) = fault f

-- The texts of the exceptions that ddi and dps declare.
unfoldable pub what : Exception → Text
what (runtime_error message) = message
what invalid_argument = codes "stoi"
what out_of_range = codes "stoi"
what unauthorized = codes "Got " ++ (to_string (pos 401) ++ codes " code")
what (http_unexpected_code presented expected) =
    codes "Unexpected code. Got "
    ++ (to_string (pos presented)
        ++ (codes " (expected " ++ (to_string (pos expected) ++ codes ")")))
what unexpected_payload = codes "unexpected payload"
what wrong_response = codes "wrong response"
what (http_lib_error n) = codes "HTTP request error. Error code " ++ to_string (pos n)
what (client_initialize_error message) = codes "Client not initialized properly: " ++ message
what (httplib_error n) = codes "HTTPLib request error. Error code " ++ to_string (pos n)
what (provisioning_error n) = codes "Provisioning request error. HTTP code " ++ to_string (pos n)
what (up2date_cloud_error message) = codes "Error from cloud: " ++ message
what (foreign n) = []

pub bind-eq-ok {ℓ₁ ℓ₂} :
    {First : Type ℓ₁} {Next : Type ℓ₂} (first : Result First) (next : First → Result Next)
    {last : Next}
    → (first >>= next) ≡ ok last
    → (value : First) × (first ≡ ok value) × (next value ≡ ok last)
bind-eq-ok (fault cause) next h = cc
bind-eq-ok (throw error) next h = cc
bind-eq-ok (ok value) next h = (value, refl, h)

pub ok-injective {ℓ} : {A : Type ℓ} {a b : A} → ok a ≡ ok b → a ≡ b
ok-injective h = cc

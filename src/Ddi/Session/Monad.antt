-- ===== src/Ddi/Session/Monad.antt =====
-- The environment, the history, and calls that change the client: state, exceptions and faults.
-- What was changed before an exception stays changed.
use up2date_cpp.Base.{ℕ, ◌≡◌, refl, Bool, true, false, Option, none, some, List, ◌∷◌, if◌then◌else◌}
use up2date_cpp.Text.{Text}
use up2date_cpp.Outcome.{HttpError, Exception, Fault, Result, ok, throw, fault}
use up2date_cpp.Multimap.{Multimap}
use up2date_cpp.Uri.{Uri}
use up2date_cpp.Ddi.Response.{Response, ConfigResponse}
use up2date_cpp.Ddi.Payload.Cancel.{CancelAction}
use up2date_cpp.Ddi.Payload.Deployment.{DeploymentBase}
use up2date_cpp.Ddi.State.{Client, RestoreCall, Signal}

-- An `httpclient::Client`: its server, its key pair, and whether certificate verification was
-- switched on or off (`none` where it was not).
pub record Connection : Type 0 where
  pub server : Text
  pub keypair : Option (Text × Text)
  pub verify : Option Bool

-- The methods of `httpclient::Client`; `post` and `put` have a body and a content type.
pub data Method : Type 0 where
  get get_stream : Method
  post put : Text → Text → Method

pub record Request : Type 0 where
  pub connection : Connection
  pub method : Method
  pub path : Text
  pub headers : Multimap

-- `httpclient::Response` and `httpclient::Result`; the response is a pointer.
pub record Reply : Type 0 where
  pub status : ℕ
  pub body : Text

pub record HttpResult : Type 0 where
  pub response : Option Reply
  pub error : HttpError

-- What the peer of a `Get` with handlers delivers: nothing, or a status, pieces of the body, and
-- an error or success at the end.
pub data Delivery : Type 0 where
  unreachable : HttpError → Delivery
  answers : ℕ → List Text → HttpError → Delivery

-- A call out of the library.
pub data Event : Type 0 where
  requested : Request → Event
  auth_asked : ℕ → Event
  config_asked : ℕ → Event
  cancel_asked : ℕ → CancelAction → Event
  deployment_asked : ℕ → DeploymentBase → Event
  no_actions_told : ℕ → Event
  delivered undelivered : ℕ → Event
  file_opened : Text → Event
  file_written : Text → Text → Event
  received : Text → Event
  slept : Event

-- The calls made so far, the last one first.
abbrev pub History : Type 0
History = List Event

-- `AuthErrorHandler::onAuthError` with the `AuthRestoreHandler` that it is given.
pub data Restore : Type 0 where
  done : Restore
  raise : Exception → Restore
  call : RestoreCall → (Option Exception → Restore) → Restore

-- A download that a handler asks of an artifact, `downloadTo`, `getBody` or
-- `downloadWithReceiver`. The receiver answers whether it wants more, from the calls made so far.
pub data Download : Type 0 where
  to_file : Text → Download
  to_body : Download
  to_receiver : (History → Bool) → Download

pub data Answer : Type 0 where
  finished : Text → Answer
  failed : Exception → Answer

-- A method of `EventHandler`.
pub data Callback (A : Type 0) : Type 0 where
  return : A → Callback A
  raise_from : Exception → Callback A
  fetch : Uri → Download → (Answer → Callback A) → Callback A
  send_signal : Signal → Callback A → Callback A

-- Pointers that a handler returns may be null. `rejects` is what the constructor of
-- `httpclient::Client` throws for a connection, if anything: a scheme that it does not support, or
-- an endpoint that it cannot read.
pub record Environment : Type 0 where
  pub rejects : Connection → Option Exception
  pub exchange : History → Request → HttpResult
  pub stream : History → Request → Delivery
  pub on_auth_error : ℕ → History → Restore
  pub on_config_request : ℕ → History → Callback (Option ConfigResponse)
  pub on_cancel_action : ℕ → History → CancelAction → Callback (Option Response)
  pub on_deployment_action : ℕ → History → DeploymentBase → Callback (Option Response)
  pub on_no_actions : ℕ → History → Callback (Unit {0})
  pub write_succeeds : History → Bool
  pub while_asleep : History → List Signal

pub record Session : Type 0 where
  pub client : Client
  pub history : History

abbrev pub M : Type 0 → Type 0
M A = Session → Result A × Session

module _ {A : Type 0} where
  unfoldable pub pure : A → M A
  pure a s = (ok a, s)

  unfoldable pub lift : Result A → M A
  lift r s = (r, s)

  unfoldable pub gets : (Client → A) → M A
  gets f s = (ok (f s.client), s)

  unfoldable pub asks : (History → A) → M A
  asks f s = (ok (f s.history), s)

unfoldable pub modify : (Client → Client) → M (Unit {0})
modify f s = (ok tt, record s { client = f s.client })

unfoldable pub emit : Event → M (Unit {0})
emit e s = (ok tt, record s { history = e ∷ s.history })

module _ {A B : Type 0} where
  abbrev pub continue : (A → M B) → Result A × Session → Result B × Session
  continue f (ok a, s) = f a s
  continue f (throw e, s) = (throw e, s)
  continue f (fault e, s) = (fault e, s)

  -- To open this is to open the actions above too.
  infixl 5 ◌>>=◌ ◌>>◌
  unfoldable pub ◌>>=◌ : M A → (A → M B) → M B
  unfolding pure lift gets asks modify emit
  ◌>>=◌ m f s = continue f (m s)

  abbrev pub ◌>>◌ : M A → M B → M B
  m >> k = m >>= λ _. k

-- A client that a method computes, or its exception, with the client as it was.
abbrev pub updated : Session → Result Client → Result (Unit {0}) × Session
updated s (ok c) = (ok tt, record s { client = c })
updated s (throw e) = (throw e, s)
updated s (fault e) = (fault e, s)

unfoldable pub try_modify : (Client → Result Client) → M (Unit {0})
try_modify f s = updated s (f s.client)

-- A shared pointer that is followed.
abbrev pub dereferenced {ℓ} : {A : Type ℓ} → Option A → Result A
dereferenced none = fault Fault.null_pointer
dereferenced (some a) = ok a

-- A test in an action, decided.
pub if_true :
    {A : Type 0} (b : Bool) (m k : M A) (s : Session) → b ≡ true → (if b then m else k) s ≡ m s
if_true true m k s h = refl
if_true false m k s h = cc

pub if_false :
    {A : Type 0} (b : Bool) (m k : M A) (s : Session) → b ≡ false → (if b then m else k) s ≡ k s
if_false true m k s h = cc
if_false false m k s h = refl

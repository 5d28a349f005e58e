-- ===== src/Win/Api.antt =====
-- Calls of the Windows API, the resources that they give, and functions in C with `goto clean`.
use up2date_cpp.Base.{ℕ, ◌+◌, Bool, true, false, Option, List, [], ◌∷◌, ◌==◌, if◌then◌else◌}
use up2date_cpp.Text.{Text}
use up2date_cpp.Outcome.{Exception, Fault}

-- What a pointer or a handle of `do_http_request_ctx` or `do_http_request_mtls_` holds.
pub data Resource : Type 0 where
  session connection request host_text method_text path_text headers_text buffer : Resource
  store decoded key_blob own_context chain_context listed_context provider key : Resource

abbrev pub number : Resource → ℕ
number session = 0
number connection = 1
number request = 2
number host_text = 3
number method_text = 4
number path_text = 5
number headers_text = 6
number buffer = 7
number store = 8
number decoded = 9
number key_blob = 10
number own_context = 11
number chain_context = 12
number listed_context = 13
number provider = 14
number key = 15

abbrev pub same : Resource → Resource → Bool
same a b = number a == number b

-- Whether a key container is to be opened, deleted or made.
pub data ProviderMode : Type 0 where
  existing_keys delete_keys new_keys : ProviderMode

-- The calls that may fail. Texts are passed as wide strings where the API wants them.
pub data Call : Type 0 where
  open_session : Call
  connect_to : Text → ℕ → Call
  open_request : Text → Text → Bool → Call
  set_certificate : Bool → Call
  ignore_checks : Call
  send_request : Text → Text → Call
  receive_response : Call
  open_store delete_listed list_store set_key_info : Call
  decode_size decode decode_key_size decode_key : Text → Call
  create_context add_context import_key : Text → Call
  acquire_provider : ProviderMode → Call

pub data WinEvent : Type 0 where
  called : Call → WinEvent
  acquired released : Resource → WinEvent
  status_asked available_asked : WinEvent
  read_asked : ℕ → WinEvent

-- The events so far, the last one first.
abbrev pub WinHistory : Type 0
WinHistory = List WinEvent

-- A value, or what `GetLastError` gives after the failure.
pub data Answer (A : Type 0) : Type 0 where
  got : A → Answer A
  failed : ℕ → Answer A

-- The system: what the calls answer, by all that happened before. `widen` is
-- `MultiByteToWideChar` in the code page of the system.
pub record WinHttp : Type 0 where
  pub widen : Text → Text
  pub answer : WinHistory → Call → Answer (Unit {0})
  pub status : WinHistory → Option ℕ
  pub available : WinHistory → Answer ℕ
  pub read : WinHistory → ℕ → Answer Text

-- The local variables of a function that are not null, by their numbers.
abbrev pub Pointers : Type 0
Pointers = ℕ → Bool

abbrev pub all_null : Pointers
all_null n = false

abbrev pub nullified : Resource → Pointers → Pointers
nullified r p n = if number r == n then false else p n

abbrev pub assigned : Resource → Pointers → Pointers
assigned r p n = if number r == n then true else p n

-- A function in C: its variables, the history, and the context of its caller's handlers.
pub record WinState (C : Type 0) : Type 0 where
  pub pointers : Pointers
  pub history : WinHistory
  pub context : C

-- How a statement ends: it goes on, it jumps to the label with an error code, it lets an exception
-- of a handler pass, it writes outside a buffer, or the fuel of a loop ran out.
pub data Jump (A : Type 0) : Type 0 where
  go : A → Jump A
  clean_with : ℕ → Jump A
  thrown : Exception → Jump A
  crashed : Fault → Jump A
  unfinished : Jump A

abbrev pub Proc : Type 0 → Type 0 → Type 0
Proc C A = WinState C → Jump A × WinState C

module _ {C A B : Type 0} where
  abbrev pub and_then : Jump A × WinState C → (A → Proc C B) → Jump B × WinState C
  and_then (go a, s) f = f a s
  and_then (clean_with code, s) f = (clean_with code, s)
  and_then (thrown e, s) f = (thrown e, s)
  and_then (crashed x, s) f = (crashed x, s)
  and_then (unfinished, s) f = (unfinished, s)

  infixl 5 ◌>>=◌ ◌>>◌
  unfoldable pub ◌>>=◌ : Proc C A → (A → Proc C B) → Proc C B
  ◌>>=◌ m f s = and_then (m s) f

  abbrev pub ◌>>◌ : Proc C A → Proc C B → Proc C B
  m >> k = m >>= λ _. k

module _ {C : Type 0} where
  unfoldable pub proceed : {A : Type 0} → A → Proc C A
  proceed a s = (go a, s)

  unfoldable pub goto_clean : {A : Type 0} → ℕ → Proc C A
  goto_clean code s = (clean_with code, s)

  unfoldable pub crash : {A : Type 0} → Fault → Proc C A
  crash x s = (crashed x, s)

  unfoldable pub note : WinEvent → Proc C (Unit {0})
  note e s = (go tt, record s { history = e ∷ s.history })

  -- A pointer gets a resource.
  unfoldable pub acquire : Resource → Proc C (Unit {0})
  acquire r s =
      (go tt, record s { pointers = assigned r s.pointers; history = acquired r ∷ s.history })

  -- A resource is released; its pointer keeps its value.
  abbrev pub release : Resource → Proc C (Unit {0})
  release r = note (released r)

  unfoldable pub release_if : Resource → Proc C (Unit {0})
  unfolding note proceed
  release_if r s = (if s.pointers (number r) then release r else proceed tt) s

  abbrev pub of_answer : {A : Type 0} → Answer A → Proc C A
  of_answer (got a) = proceed a
  of_answer (failed code) = goto_clean code

-- How often a resource was acquired and released.
abbrev pub acquired_count : Resource → WinHistory → ℕ
acquired_count q [] = 0
acquired_count q (acquired r ∷ h) = (if same r q then 1 else 0) + acquired_count q h
acquired_count q (_ ∷ h) = acquired_count q h

abbrev pub released_count : Resource → WinHistory → ℕ
released_count q [] = 0
released_count q (released r ∷ h) = (if same r q then 1 else 0) + released_count q h
released_count q (_ ∷ h) = released_count q h

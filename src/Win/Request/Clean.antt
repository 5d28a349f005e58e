-- ===== src/Win/Request/Clean.antt =====
-- The label `clean` of `do_http_request_ctx`, and what the whole function leaves behind.
use mathlib.Core.Path.{subst}
use up2date_cpp.Base.{
  ℕ, ◌+◌, ◌≡◌, refl, Bool, true, false, some, inl, inr, Bool-cases, if◌then◌else◌, ◌⊎◌, arith,
}
use up2date_cpp.Outcome.{ok}
use up2date_cpp.Win.Api.{
  Resource, number, same, session, connection, request, host_text, method_text, path_text,
  headers_text, buffer, store, decoded, key_blob, own_context, chain_context, listed_context,
  provider, key, WinHttp, WinHistory, nullified, Pointers, WinState, Jump, go, clean_with, thrown,
  crashed, unfinished, Proc, and_then, ◌>>=◌, ◌>>◌, proceed, note, release_if, acquired_count,
  released_count,
}
use up2date_cpp.Win.Owns.{Owns, EndsIn}
use up2date_cpp.Win.Request.{
  RequestConfig, Handlers, request_body, clean, finish, started, do_http_request_ctx,
}
use up2date_cpp.Win.Request.Releases.{is_cleaned, request_body-Step}

abbrev none_left : ℕ → Bool
none_left = nullified session (
    nullified connection (
      nullified request (
        nullified headers_text
          (nullified path_text (nullified method_text (nullified host_text is_cleaned))))))

none_left_all : (r : Resource) → none_left (number r) ≡ false
none_left_all session = refl
none_left_all connection = refl
none_left_all request = refl
none_left_all host_text = refl
none_left_all method_text = refl
none_left_all path_text = refl
none_left_all headers_text = refl
none_left_all buffer = refl
none_left_all store = refl
none_left_all decoded = refl
none_left_all key_blob = refl
none_left_all own_context = refl
none_left_all chain_context = refl
none_left_all listed_context = refl
none_left_all provider = refl
none_left_all key = refl

-- Between two histories a resource was released as often as it was acquired.
abbrev pub Balanced : Resource → WinHistory → WinHistory → Type 0
Balanced q start end =
    acquired_count q end + released_count q start ≡ released_count q end + acquired_count q start

module _ (q : Resource) (start : WinHistory) {C : Type 0} where
  -- The resource is still held if its pointer is set and among those that are left.
  pub record Owing (left : ℕ → Bool) (s : WinState C) : Type 0 where
    pub counts :
        acquired_count q s.history + released_count q start
        ≡ released_count q s.history
          + acquired_count q start
          + (if left (number q) then (if s.pointers (number q) then 1 else 0) else 0)

  abbrev LeavesOwing : (ℕ → Bool) → Jump (Unit {0}) × WinState C → Type 0
  LeavesOwing left (go a, t) = Owing left t
  LeavesOwing left _ = ⊥

  pub record Cleans (left : ℕ → Bool) (m : Proc C (Unit {0})) (left' : ℕ → Bool) : Type 0 where
    pub at : (s : WinState C) → Owing left s → LeavesOwing left' (m s)

  pub Cleans-release_if :
      {left : ℕ → Bool} (r : Resource)
      → left (number r) ≡ true
      → Cleans left (release_if r) (nullified r left)
  unfolding release_if note proceed
  Cleans-release_if {left} r h = record {
    at = λ s o. elim (Bool-cases (s.pointers (number r))) [
      | inl set ↦ rw set (elim (Bool-cases (same r q)) [
        | inl it ↦
            let e : number r ≡ number q = ground (arith, it) in
            let pointer : s.pointers (number q) ≡ true = subst (λ k. s.pointers k ≡ true) e set in
            let due : left (number q) ≡ true = subst (λ k. left k ≡ true) e h in
            record { counts = ground (arith, o.counts) }
        | inr other ↦ record { counts = ground (arith, o.counts) }
      ])
      | inr null ↦ rw null (elim (Bool-cases (same r q)) [
        | inl it ↦
            let e : number r ≡ number q = ground (arith, it) in
            let pointer : s.pointers (number q) ≡ false =
              subst (λ k. s.pointers k ≡ false) e null in
            let due : left (number q) ≡ true = subst (λ k. left k ≡ true) e h in
            record { counts = ground (arith, o.counts) }
        | inr other ↦ record { counts = ground (arith, o.counts) }
      ])
    ];
  }

  LeavesOwing-and_then :
      {left left' : ℕ → Bool} (r : Jump (Unit {0}) × WinState C) (m : Proc C (Unit {0}))
      → LeavesOwing left r
      → Cleans left m left'
      → LeavesOwing left' (and_then r (λ _. m))
  LeavesOwing-and_then (go a, t) m o next = next.at t o
  LeavesOwing-and_then (clean_with code, t) m o next = absurd o
  LeavesOwing-and_then (thrown x, t) m o next = absurd o
  LeavesOwing-and_then (crashed x, t) m o next = absurd o
  LeavesOwing-and_then (unfinished, t) m o next = absurd o

  pub Cleans-then :
      {left left' left'' : ℕ → Bool} {m k : Proc C (Unit {0})}
      → Cleans left m left'
      → Cleans left' k left''
      → Cleans left (m >> k) left''
  unfolding ◌>>=◌
  Cleans-then {m} {k} first next = record {
    at = λ s o. LeavesOwing-and_then (m s) k (first.at s o) next;
  }

  clean-Cleans : Cleans is_cleaned clean none_left
  unfolding clean
  clean-Cleans = Cleans-then (Cleans-release_if host_text refl) (
      Cleans-then (Cleans-release_if method_text refl) (
        Cleans-then (Cleans-release_if path_text refl) (
          Cleans-then (Cleans-release_if headers_text refl) (
            Cleans-then (Cleans-release_if request refl)
              (Cleans-then (Cleans-release_if connection refl) (Cleans-release_if session refl))))))

  settled :
      (left : ℕ → Bool) (r : Jump (Unit {0}) × WinState C)
      → left (number q) ≡ false
      → LeavesOwing left r
      → Balanced q start r.1.history
  settled left (go a, t) n o = ground (arith, o.counts, n)
  settled left (clean_with code, t) n o = absurd o
  settled left (thrown x, t) n o = absurd o
  settled left (crashed x, t) n o = absurd o
  settled left (unfinished, t) n o = absurd o

  owed :
      (mine : ℕ → Bool) (s : WinState C)
      → Owns mine q start s
      → (mine (number q) ≡ true) ⊎ (mine (number q) ≡ false)
      → Owing mine s
  owed mine s o (inl own) = record { counts = rw own o.counts }
  owed mine s o (inr other) = record { counts = ground (arith, o.counts, o.others other) }

  -- A label that releases all of a function's resources.
  pub Cleans-Balanced :
      (mine left : ℕ → Bool) (label : Proc C (Unit {0}))
      → Cleans mine label left
      → left (number q) ≡ false
      → (s : WinState C) → Owns mine q start s
      → Balanced q start (label s).1.history
  Cleans-Balanced mine left label cleans n s o =
      settled left (label s) n (cleans.at s (owed mine s o (Bool-cases (mine (number q)))))

  clean-Balanced :
      (s : WinState C) → Owns is_cleaned q start s → Balanced q start (clean s).1.history
  clean-Balanced = Cleans-Balanced is_cleaned none_left clean clean-Cleans (none_left_all q)

  -- A label that balances what it finds, behind statements that keep count.
  pub finish-Balanced :
      (mine : ℕ → Bool) (label : Proc C (Unit {0}))
      → ((s : WinState C) → Owns mine q start s → Balanced q start (label s).1.history)
      → (r : Jump ℕ × WinState C) (p : Pointers) (code : ℕ) → EndsIn mine q start p r
      → (finish label r).outcome ≡ some (ok code)
      → Balanced q start (finish label r).history
  unfolding finish
  finish-Balanced mine label balances (go c, t) p code o h = balances t o.1
  finish-Balanced mine label balances (clean_with c, t) p code o h = balances t o
  finish-Balanced mine label balances (thrown x, t) p code o h = absurd (grind arith)
  finish-Balanced mine label balances (crashed x, t) p code o h = absurd (grind arith)
  finish-Balanced mine label balances (unfinished, t) p code o h = absurd (grind arith)

-- A request that ends with a code, zero or an error, has released each handle, text and buffer
-- exactly as often as it acquired it, wherever it ended: nothing leaks and nothing is freed twice.
-- This holds for every system, handlers that return or throw, and every bound on the loop.
pub do_http_request_ctx_releases :
    (win : WinHttp) {C : Type 0} (handlers : Handlers C) (fuel : ℕ) (config : RequestConfig)
    (with_certificate : Bool) (history : WinHistory) (context : C) (code : ℕ) (q : Resource)
    → (do_http_request_ctx win handlers fuel config with_certificate history context).outcome
      ≡ some (ok code)
    → Balanced q history
        (do_http_request_ctx win handlers fuel config with_certificate history context).history
unfolding do_http_request_ctx
do_http_request_ctx_releases win handlers fuel config with_certificate history context code q h =
    finish-Balanced q history is_cleaned clean (clean-Balanced q history)
      (request_body win handlers fuel config with_certificate (started history context)) _ code
      ((request_body-Step win q history handlers fuel config with_certificate).at
        (started history context) refl record { counts = omega arith; others = λ x. refl })
      h

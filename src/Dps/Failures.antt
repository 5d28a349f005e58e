-- ===== src/Dps/Failures.antt =====
-- The exceptions of the provisioning client: one for each reason.
use up2date_cpp.Base.{
  ℕ, ◌≡◌, ◌≢◌, ◌⊎◌, ◌↔◌, ◌==◌, inl, inr, Option, none, some, refl, ap, sym, ◌∙◌, true, false,
  Bool-cases, arith,
}
use up2date_cpp.Text.{Text, codes, c_str}
use up2date_cpp.Outcome.{
  Exception, Result, ok, throw, fault, error_num, is_success, httplib_error, provisioning_error,
}
use up2date_cpp.Json.{RapidJson, has_member, member, text_member}
use up2date_cpp.Ddi.Session.Monad.{Request, Reply, HttpResult}
use up2date_cpp.Dps.{
  ProvisioningClient, bad_payload, read_provisioning, do_provisioning, response_of,
}
use up2date_cpp.Dps.Answers.{provisioning_request}

-- The statuses that `doProvisioning` accepts, and the others.
accepts : (n : ℕ) → ((n ≡ 200) ⊎ (n ≡ 201)) ⊎ ((n ≢ 200) × (n ≢ 201))
accepts n = elim (Bool-cases (n == 200)) [
  | inl h ↦ inl (inl (ground arith))
  | inr h ↦ elim (Bool-cases (n == 201)) [
    | inl k ↦ inl (inr (ground arith))
    | inr k ↦ inr (λ x. absurd (ground arith), λ x. absurd (ground arith))
  ]
]

module _ (json : RapidJson) where
  -- A body that does not parse, or lacks a member, which are looked for in this order.
  pub data Unreadable (body : Text) : Type 0 where
    unparsed : json.parse (c_str body) ≡ none → Unreadable body
    no_crt :
        (document : json.Value)
        → json.parse (c_str body) ≡ some document
        → json.find_member document (codes "crt") ≡ some none
        → Unreadable body
    no_endpoint :
        (document u : json.Value)
        → json.parse (c_str body) ≡ some document
        → json.find_member document (codes "crt") ≡ some (some u)
        → json.find_member document (codes "endpoint") ≡ some none
        → Unreadable body
    no_key :
        (document u w : json.Value)
        → json.parse (c_str body) ≡ some document
        → json.find_member document (codes "crt") ≡ some (some u)
        → json.find_member document (codes "endpoint") ≡ some (some w)
        → json.find_member document (codes "key") ≡ some none
        → Unreadable body

  read-Unreadable :
      (body : Text) → Unreadable body → read_provisioning json body ≡ throw bad_payload
  unfolding read_provisioning has_member
  read-Unreadable body (unparsed p) = rw p refl
  read-Unreadable body (no_crt d p c) = rw p (rw c refl)
  read-Unreadable body (no_endpoint d u p c n) = rw p (rw c (rw n refl))
  read-Unreadable body (no_key d u w p c n k) = rw p (rw c (rw n (rw k refl)))

  read_provisioning_throws :
      (body : Text) (e : Exception) → read_provisioning json body ≡ throw e → e ≡ bad_payload
  unfolding read_provisioning has_member text_member member
  read_provisioning_throws body e h = ground arith

  module _ (body : Text) (e : Exception) (document : json.Value)
      (p : json.parse (c_str body) ≡ some document)
      (h : read_provisioning json body ≡ throw e) where
    lacks_key :
        (u w : json.Value) (k : Option (Option json.Value))
        → json.find_member document (codes "crt") ≡ some (some u)
        → json.find_member document (codes "endpoint") ≡ some (some w)
        → json.find_member document (codes "key") ≡ k
        → Unreadable body
    unfolding read_provisioning has_member text_member member
    lacks_key u w (some none) c n k = no_key document u w p c n k
    lacks_key u w none c n k = absurd (ground arith)
    lacks_key u w (some (some v)) c n k = absurd (ground arith)

    lacks_endpoint :
        (u : json.Value) (n : Option (Option json.Value))
        → json.find_member document (codes "crt") ≡ some (some u)
        → json.find_member document (codes "endpoint") ≡ n
        → Unreadable body
    unfolding read_provisioning has_member text_member member
    lacks_endpoint u (some none) c n = no_endpoint document u p c n
    lacks_endpoint u none c n = absurd (ground arith)
    lacks_endpoint u (some (some w)) c n =
        lacks_key u w (json.find_member document (codes "key")) c n refl

    lacks :
        (c : Option (Option json.Value))
        → json.find_member document (codes "crt") ≡ c
        → Unreadable body
    unfolding read_provisioning has_member text_member member
    lacks (some none) c = no_crt document p c
    lacks none c = absurd (ground arith)
    lacks (some (some u)) c = lacks_endpoint u (json.find_member document (codes "endpoint")) c refl

  Unreadable-of :
      (body : Text) (e : Exception) (parsed : Option json.Value)
      → json.parse (c_str body) ≡ parsed
      → read_provisioning json body ≡ throw e
      → Unreadable body
  Unreadable-of body e none p h = unparsed p
  Unreadable-of body e (some document) p h =
      lacks body e document p h (json.find_member document (codes "crt")) refl

  module _ (answer : Request → Result HttpResult) where
    module _ (client : ProvisioningClient) where
      abbrev answered : Result HttpResult
      answered = answer (provisioning_request json client)

      -- The service gave a response.
      pub record Responds (response : Reply) : Type 0 where
        pub result : HttpResult
        pub given : answered ≡ ok result
        pub succeeded : is_success result.error ≡ true
        pub responded : result.response ≡ some response

      -- Why `doProvisioning` ends with an exception, and with which one.
      pub data Failure (e : Exception) : Type 0 where
        unconstructed : answered ≡ throw e → Failure e
        unanswered :
            (result : HttpResult)
            → answered ≡ ok result
            → is_success result.error ≡ false
            → e ≡ httplib_error (error_num result.error)
            → Failure e
        refused :
            (response : Reply)
            → Responds response
            → response.status ≢ 200
            → response.status ≢ 201
            → e ≡ provisioning_error response.status
            → Failure e
        unreadable :
            (response : Reply)
            → Responds response
            → (response.status ≡ 200) ⊎ (response.status ≡ 201)
            → Unreadable response.body
            → e ≡ bad_payload
            → Failure e

      failure_throws : (e : Exception) → Failure e → do_provisioning json answer client ≡ throw e
      unfolding do_provisioning response_of
      failure_throws e (unconstructed a) = rw a refl
      failure_throws e (unanswered result a f same) = rw a (rw f (ap throw (sym same)))
      failure_throws e (refused response r x y same) =
          rw r.given (rw r.succeeded (rw r.responded (ground arith)))
      failure_throws e (unreadable response r (inl s) u same) =
          let read = read-Unreadable response.body u in
          rw r.given (rw r.succeeded (rw r.responded (rw s (read ∙ ap throw (sym same)))))
      failure_throws e (unreadable response r (inr s) u same) =
          let read = read-Unreadable response.body u in
          rw r.given (rw r.succeeded (rw r.responded (rw s (read ∙ ap throw (sym same)))))

      module _ (e : Exception) (h : do_provisioning json answer client ≡ throw e) where
        response_failed : (response : Reply) → Responds response → Failure e
        unfolding do_provisioning response_of
        response_failed response r = elim (accepts response.status) [
          | inl accepted ↦
              let read : read_provisioning json response.body ≡ throw e = ground arith in
              unreadable response r accepted
                (Unreadable-of response.body e (json.parse (c_str response.body)) refl read)
                (read_provisioning_throws response.body e read)
          | inr (x, y) ↦ refused response r x y (ground arith)
        ]

        result_failed :
            (result : HttpResult) (given : Option Reply)
            → answered ≡ ok result
            → result.response ≡ given
            → Failure e
        unfolding do_provisioning response_of
        result_failed result none a g = elim (Bool-cases (is_success result.error)) [
          | inr failed ↦ unanswered result a failed (ground arith)
          | inl success ↦ absurd (ground arith)
        ]
        result_failed result (some response) a g = elim (Bool-cases (is_success result.error)) [
          | inr failed ↦ unanswered result a failed (ground arith)
          | inl success ↦
              response_failed response
                (record { result = result; given = a; succeeded = success; responded = g })
        ]

        failed : (r : Result HttpResult) → answered ≡ r → Failure e
        unfolding do_provisioning
        failed (ok result) a = result_failed result result.response a refl
        failed (throw x) a = unconstructed (ground arith)
        failed (fault x) a = absurd (ground arith)

      -- `doProvisioning` ends with the exception `e` exactly where the HTTP client cannot be
      -- constructed, with that exception; where the request ends with an error, with its number;
      -- where the status is neither 200 nor 201, with the status; or where the body does not parse
      -- or lacks "crt", "endpoint" or "key", with the exception that the payload is bad.
      pub do_provisioning-Failure :
          (e : Exception) → (do_provisioning json answer client ≡ throw e) ↔ Failure e
      do_provisioning-Failure e =
          (λ h. failed e h (answer (provisioning_request json client)) refl, failure_throws e)

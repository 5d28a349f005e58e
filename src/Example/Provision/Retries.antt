-- ===== src/Example/Provision/Retries.antt =====
-- The attempts of ritms_auth, and the document that it prints.
use mathlib.Core.Path.{subst}
use up2date_cpp.Base.{ℕ, zero, suc, ◌+◌, ◌<◌, ◌≡◌, refl, ap, ◌∙◌, none, some, arith}
use up2date_cpp.Text.{codes, c_str, equal}
use up2date_cpp.Outcome.{Exception, Result, ok, throw, ◌>>=◌}
use up2date_cpp.Json.Laws.{find_new, find_other, text_found}
use up2date_cpp.Json.{RapidJson, BuildLaws, member, text_member}
use up2date_cpp.Ddi.Session.Monad.{Request, HttpResult}
use up2date_cpp.Dps.{ProvisioningData, ProvisioningClient, do_provisioning}
use up2date_cpp.Example.Provision.{
  System, value, ended, exited, provisioning_client, ritms_auth, paused, retry,
  provisioning_document,
}

-- An attempt that ends with an exception.
abbrev pub Fails : Result ProvisioningData → Type 0
Fails r = (e : Exception) × (r ≡ throw e)

module _ (attempt : ℕ → Result ProvisioningData) where
  failing_step :
      (i left : ℕ)
      → Fails (attempt i)
      → retry attempt i (suc left) ≡ paused (retry attempt (suc i) left)
  unfolding retry
  failing_step i left (e, h) = rw h refl

  at_once :
      (i left : ℕ) (payload : ProvisioningData)
      → attempt i ≡ ok payload
      → retry attempt i (suc left) ≡ (ok (some payload), 0)
  unfolding retry
  at_once i left payload h = rw h refl

  -- If the first `k` attempts fail and the next one gives a payload, the loop gives that payload
  -- after `k` pauses, as long as there are more than `k` attempts.
  retry_first :
      (k i left : ℕ) (payload : ProvisioningData)
      → ((j : ℕ) → j < k → Fails (attempt (i + j)))
      → attempt (i + k) ≡ ok payload
      → k < left
      → retry attempt i left ≡ (ok (some payload), k)
  retry_first k i zero payload fails h bound = absurd (omega (arith, bound))
  retry_first zero i (suc left) payload fails h bound =
      at_once i left payload (subst (λ n. attempt n ≡ ok payload) (omega arith) h)
  retry_first (suc k) i (suc left) payload fails h bound =
      failing_step i left (subst (λ n. Fails (attempt n)) (omega arith) (fails 0 (omega arith)))
      ∙ ap paused (
          retry_first k (suc i) left payload
            (λ j b. subst (λ n. Fails (attempt n)) (omega arith) (fails (suc j) (omega (arith, b))))
            (subst (λ n. attempt n ≡ ok payload) (omega arith) h) (omega (arith, bound)))

  -- If all attempts fail, there is no payload, and the loop has paused behind each of them.
  retry-none :
      (i left : ℕ)
      → ((j : ℕ) → j < left → Fails (attempt (i + j)))
      → retry attempt i left ≡ (ok none, left)
  retry-none i zero fails = unfold retry in refl
  retry-none i (suc left) fails =
      failing_step i left (subst (λ n. Fails (attempt n)) (omega arith) (fails 0 (omega arith)))
      ∙ ap paused (
          retry-none (suc i) left (λ j b.
            subst (λ n. Fails (attempt n)) (omega arith) (fails (suc j) (omega (arith, b)))))

module _ (json : RapidJson) (system : System) (answers : ℕ → Request → Result HttpResult)
    (client : ProvisioningClient) (built : provisioning_client system ≡ value client) where
  abbrev attempt_at : ℕ → Result ProvisioningData
  attempt_at i = do_provisioning json (answers i) client

  -- If the variables are set, the client can be built, the service answers one of the first five
  -- attempts well, and each attempt before it ended with an exception, ritms_auth prints the
  -- document of that answer.
  pub ritms_auth_prints :
      (k : ℕ) (payload : ProvisioningData)
      → ((j : ℕ) → j < k → Fails (attempt_at j))
      → attempt_at k ≡ ok payload
      → k < 5
      → ritms_auth json system answers
        ≡ value (c_str (json.write (provisioning_document json payload)))
  unfolding ritms_auth
  ritms_auth_prints k payload fails e bound = rw built (
      rw
        (retry_first attempt_at k 0 5 payload
          (λ j b. subst (λ n. Fails (attempt_at n)) (omega arith) (fails j b))
          (subst (λ n. attempt_at n ≡ ok payload) (omega arith) e) bound)
        refl)

  -- If all five attempts end with an exception, ritms_auth exits with 102.
  ritms_auth_exits :
      ((j : ℕ) → j < 5 → Fails (attempt_at j)) → ritms_auth json system answers ≡ ended (exited 102)
  unfolding ritms_auth
  ritms_auth_exits fails = rw built (
      rw
        (retry-none attempt_at 0 5
          (λ j b. subst (λ n. Fails (attempt_at n)) (omega arith) (fails j b)))
        refl)

module _ (json : RapidJson) (laws : BuildLaws json) where
  -- What a reader finds in the document that ritms_auth prints, up to a NUL: the certificate, the
  -- key and the endpoint of the payload, under the names that the program documents.
  pub provisioning_document_reads :
      (payload : ProvisioningData)
      → let document = provisioning_document json payload in
        let key_pair = member json document (codes "mTLSKeypair") in
        ((key_pair >>= λ pair. text_member json pair (codes "certificate"))
          ≡ ok (c_str payload.key_pair.crt))
        × ((key_pair >>= λ pair. text_member json pair (codes "key"))
            ≡ ok (c_str payload.key_pair.key))
        × (text_member json document (codes "up2DateEndpoint")
            ≡ ok (c_str payload.up2date_endpoint))
  unfolding provisioning_document member equal
  provisioning_document_reads payload =
      let crt = json.string payload.key_pair.crt in
      let key = json.string payload.key_pair.key in
      let with_crt = json.add_member json.empty_object (codes "certificate") crt in
      let pair = json.add_member with_crt (codes "key") key in
      let outer = json.add_member json.empty_object (codes "mTLSKeypair") pair in
      let endpoint = json.string payload.up2date_endpoint in
      let pair_found =
        find_other json laws outer (codes "up2DateEndpoint") (codes "mTLSKeypair") endpoint
          (some pair) refl
          (find_new json laws json.empty_object (codes "mTLSKeypair") pair
            (laws.find_empty (codes "mTLSKeypair"))) in
      let crt_found =
        find_other json laws with_crt (codes "key") (codes "certificate") key (some crt) refl (
          find_new json laws json.empty_object (codes "certificate") crt
            (laws.find_empty (codes "certificate"))) in
      let key_found = find_new json laws with_crt (codes "key") key (
        find_other json laws json.empty_object (codes "certificate") (codes "key") crt none refl
          (laws.find_empty (codes "key"))) in
      let endpoint_found = find_new json laws outer (codes "up2DateEndpoint") endpoint (
        find_other json laws json.empty_object (codes "mTLSKeypair") (codes "up2DateEndpoint") pair
          none refl (laws.find_empty (codes "up2DateEndpoint"))) in
      (
        rw pair_found
            (text_found json laws pair (codes "certificate") payload.key_pair.crt crt_found),
        rw pair_found (text_found json laws pair (codes "key") payload.key_pair.key key_found),
        text_found json laws _ (codes "up2DateEndpoint") payload.up2date_endpoint endpoint_found,
      )

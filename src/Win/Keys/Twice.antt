-- ===== src/Win/Keys/Twice.antt =====
-- The error path of `do_http_request_mtls_` that frees the decoded text twice.
use up2date_cpp.Base.{
  ℕ, suc, ◌+◌, ◌≡◌, refl, ◌∙◌, true, false, inl, inr, Bool-cases, some, ◌∷◌, arith,
}
use up2date_cpp.Text.{Text}
use up2date_cpp.Outcome.{ok}
use up2date_cpp.Win.Api.{
  Resource, number, same, decoded, key_blob, listed_context, own_context, chain_context, key,
  provider, store, called, decode_size, released, failed, WinHttp, WinState, Proc, ◌>>=◌, note,
  goto_clean, acquired_count, released_count,
}
use up2date_cpp.Win.Request.{finish, of_result}
use up2date_cpp.Win.Request.Succeeds.{after_release, release_if_lem}
use up2date_cpp.Win.Keys.{
  WinCrypt, begin_certificate, strstr, advance, ask, add_certificate, load_chain, clear,
}

module _ {C : Type 0} where
  other_kept :
      (r : Resource) (s : WinState C)
      → same r decoded ≡ false
      → (acquired_count decoded (after_release r s).history ≡ acquired_count decoded s.history)
        × (released_count decoded (after_release r s).history ≡ released_count decoded s.history)
  other_kept r s h = elim (Bool-cases (s.pointers (number r))) [
    | inl set ↦ rw set (refl, ground (arith, h))
    | inr null ↦ rw null (refl, refl)
  ]

  first_freed :
      (s : WinState C)
      → s.pointers (number decoded) ≡ true
      → (acquired_count decoded (after_release decoded s).history
          ≡ acquired_count decoded s.history)
        × (released_count decoded (after_release decoded s).history
            ≡ suc (released_count decoded s.history))
  first_freed s h = rw h (refl, omega arith)

  -- The label frees the decoded text where its pointer is set.
  clear_decoded :
      (s : WinState C)
      → s.pointers (number decoded) ≡ true
      → (acquired_count decoded (clear s).1.history ≡ acquired_count decoded s.history)
        × (released_count decoded (clear s).1.history ≡ suc (released_count decoded s.history))
  unfolding clear ◌>>=◌
  clear_decoded s h =
      let s₁ = after_release decoded s in
      let s₂ = after_release key_blob s₁ in
      let s₃ = after_release listed_context s₂ in
      let s₄ = after_release own_context s₃ in
      let s₅ = after_release chain_context s₄ in
      let s₆ = after_release key s₅ in
      let s₇ = after_release provider s₆ in
      rw
        (
          release_if_lem decoded,
          release_if_lem key_blob,
          release_if_lem listed_context,
          release_if_lem own_context,
          release_if_lem chain_context,
          release_if_lem key,
          release_if_lem provider,
          release_if_lem store,
        )
        (let k₈ = other_kept store s₇ refl in
          let k₇ = other_kept provider s₆ refl in
          let k₆ = other_kept key s₅ refl in
          let k₅ = other_kept chain_context s₄ refl in
          let k₄ = other_kept own_context s₃ refl in
          let k₃ = other_kept listed_context s₂ refl in
          let k₂ = other_kept key_blob s₁ refl in
          let k₁ = first_freed s h in
          (
            k₈.0 ∙ (k₇.0 ∙ (k₆.0 ∙ (k₅.0 ∙ (k₄.0 ∙ (k₃.0 ∙ (k₂.0 ∙ k₁.0)))))),
            k₈.1 ∙ (k₇.1 ∙ (k₆.1 ∙ (k₅.1 ∙ (k₄.1 ∙ (k₃.1 ∙ (k₂.1 ∙ k₁.1)))))),
          ))

-- Where a certificate of the chain is found and its text cannot be decoded, and the pointer to the
-- decoded text is set, which was acquired once more than it was freed, the request ends with the
-- error, and has freed that text once more than it was acquired.
pub load_chain_frees_twice :
    (win : WinHttp) (crypt : WinCrypt) {C : Type 0} (rest : Proc C ℕ) (fuel : ℕ)
    (pos next found : Text) (skip code : ℕ) (s : WinState C)
    → s.pointers (number decoded) ≡ true
    → acquired_count decoded s.history ≡ suc (released_count decoded s.history)
    → advance (skip + 1) pos ≡ ok next
    → strstr next begin_certificate ≡ some found
    → crypt.text_size (released decoded ∷ s.history) found ≡ failed code
    → let end = finish clear ((load_chain win crypt (suc fuel) pos skip >>= λ _. rest) s) in
      (end.outcome ≡ some (ok code))
      × (released_count decoded end.history ≡ suc (acquired_count decoded end.history))
unfolding load_chain add_certificate of_result ask note goto_clean ◌>>=◌ finish
load_chain_frees_twice win crypt rest fuel pos next found skip code s held once e f failing =
    let t : WinState _ = record s {
      history = called (decode_size found) ∷ released decoded ∷ s.history;
    } in
    let k = clear_decoded t held in rw (e, f, failing) (refl, omega (arith, once, k.0, k.1))

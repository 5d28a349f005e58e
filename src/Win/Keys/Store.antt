-- ===== src/Win/Keys/Store.antt =====
-- How many certificates the loop that clears the store deletes.
use up2date_cpp.Base.{
  ℕ, zero, suc, ◌+◌, ◌*◌, ◌<◌, ◌≡◌, refl, ◌∙◌, Bool, true, false, [], ◌∷◌, ltb, arith,
}
use up2date_cpp.Win.Api.{
  number, listed_context, list_store, delete_listed, called, WinHttp, WinHistory, WinState, Jump,
  go, ◌>>=◌, proceed, note, acquire,
}
use up2date_cpp.Win.Request.Succeeds.{Succeeds, call_lem}
use up2date_cpp.Win.Keys.{WinCrypt, release_null, enumerated, enumerate, clear_store}

-- How often the store was asked for a certificate, and how many were deleted.
abbrev pub listings : WinHistory → ℕ
listings [] = 0
listings (called list_store ∷ h) = suc (listings h)
listings (_ ∷ h) = listings h

abbrev deletions : WinHistory → ℕ
deletions [] = 0
deletions (called delete_listed ∷ h) = suc (deletions h)
deletions (_ ∷ h) = deletions h

-- The store lists `n` certificates one after the other, and then none.
pub record Lists (crypt : WinCrypt) (n : ℕ) : Type 0 where
  pub listed : (h : WinHistory) → crypt.lists h ≡ ltb (listings h) n

module _ (win : WinHttp) (crypt : WinCrypt) {C : Type 0} where
  record Enumerates (found : Bool) (s : WinState C) (r : Jump Bool × WinState C) : Type 0 where
    after : WinState C
    ends : r ≡ (go found, after)
    one_more : listings after.history ≡ suc (listings s.history)
    none_deleted : deletions after.history ≡ deletions s.history

  enumerated_lem :
      (held found : Bool) (s : WinState C) → Enumerates found s (enumerated win crypt held found s)
  unfolding ◌>>=◌ note proceed acquire release_null
  enumerated_lem true true s = record {
    after = _;
    ends = refl;
    one_more = refl;
    none_deleted = refl;
  }
  enumerated_lem true false s = record {
    after = _;
    ends = refl;
    one_more = refl;
    none_deleted = refl;
  }
  enumerated_lem false true s = record {
    after = _;
    ends = refl;
    one_more = refl;
    none_deleted = refl;
  }
  enumerated_lem false false s = record {
    after = _;
    ends = refl;
    one_more = refl;
    none_deleted = refl;
  }

  enumerate_lem :
      (s : WinState C) (b : Bool)
      → crypt.lists s.history ≡ b
      → Enumerates b s (enumerate win crypt s)
  unfolding enumerate
  enumerate_lem s b e = rw e (enumerated_lem (s.pointers (number listed_context)) b s)

  -- The loop went on, after so many deletions.
  pub record Deletes (k : ℕ) (s : WinState C) (r : Jump (Unit {0}) × WinState C) : Type 0 where
    pub ends : r.0 ≡ go tt
    pub deleted : deletions r.1.history ≡ deletions s.history + k

  -- Where every call succeeds and the store lists an even number of certificates, the loop that
  -- is to clear the store ends, and has deleted half of them.
  pub clear_store-Deletes :
      (works : Succeeds win) (n : ℕ) (lists : Lists crypt n) (fuel k : ℕ) (s : WinState C)
      → listings s.history + 2 * k ≡ n
      → k < fuel
      → Deletes k s (clear_store win crypt fuel s)
  unfolding clear_store ◌>>=◌ proceed
  clear_store-Deletes works n lists zero k s h f = absurd (omega (arith, f))
  clear_store-Deletes works n lists (suc fuel) zero s h f =
      let e = enumerate_lem s false (lists.listed s.history ∙ ground (arith, h)) in
      rw e.ends (record { ends = refl; deleted = omega (arith, e.none_deleted) })
  clear_store-Deletes works n lists (suc fuel) (suc k) s h f =
      let e = enumerate_lem s true (lists.listed s.history ∙ ground (arith, h)) in
      let t : WinState C = record e.after { history = called delete_listed ∷ e.after.history } in
      let e₂ = enumerate_lem t true (lists.listed t.history ∙ ground (arith, h, e.one_more)) in
      let rest =
        clear_store-Deletes works n lists fuel k e₂.after
          (omega (arith, h, e.one_more, e₂.one_more)) (omega (arith, f)) in
      rw e.ends (
        rw (call_lem win works delete_listed) (
          rw e₂.ends (record {
            ends = rest.ends;
            deleted = omega (arith, rest.deleted, e.none_deleted, e₂.none_deleted);
          })))

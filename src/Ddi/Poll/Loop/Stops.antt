-- ===== src/Ddi/Poll/Loop/Stops.antt =====
-- One turn of the loop of `run`, by the flag that it looks at.
use up2date_cpp.Base.{ℕ, suc, ◌≡◌, true, false, some}
use up2date_cpp.Outcome.{ok}
use up2date_cpp.Json.{RapidJson}
use up2date_cpp.Ddi.Session.Monad.{
  Environment, Session, continue, ◌>>=◌, ◌>>◌, pure, if_true, if_false,
}
use up2date_cpp.Ddi.Poll.Loop.{poll_round, poll_loop}

module _ (json : RapidJson) (env : Environment) where
  pub loop_stopped :
      (fuel : ℕ) (s : Session)
      → s.client.is_running ≡ false
      → poll_loop env json (suc fuel) s ≡ (ok (some tt), s)
  unfolding poll_loop ◌>>=◌
  loop_stopped fuel s h = if_false s.client.is_running _ (pure (some tt)) s h

  pub loop_round :
      (fuel : ℕ) (s : Session)
      → s.client.is_running ≡ true
      → poll_loop env json (suc fuel) s
        ≡ continue (λ _. poll_loop env json fuel) (poll_round env json s)
  unfolding poll_loop ◌>>=◌
  loop_round fuel s h =
      if_true s.client.is_running (poll_round env json >> poll_loop env json fuel) _ s h

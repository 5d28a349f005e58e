-- ===== src/Http.antt =====
-- modules/include/httpclient.hpp: what both clients take from their user.
use up2date_cpp.Base.{Bool}
use up2date_cpp.Text.{Text}
use up2date_cpp.Outcome.{Result}
use up2date_cpp.Ddi.Session.Monad.{Reply}

-- The handlers of a user, who has a state of his own.
pub record UserHandlers (U : Type 0) : Type 0 where
  pub response_handler : Reply → U → Result Bool × U
  pub content_receiver : Text → U → Result Bool × U

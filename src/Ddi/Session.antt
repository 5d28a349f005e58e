-- ===== src/Ddi/Session.antt =====
-- A run of the client as a sequence of calls out of the library. The HTTP client behind
-- modules/include/httpclient.hpp, the user's handlers, files and other threads are an
-- environment that answers from the calls made so far; a callback is the tree of the calls that
-- it makes back into the library, each with what it does on every answer.
pub mod Monad
pub mod Requests
pub mod Keeps
pub mod Exchange
pub mod Retry
pub mod Sound

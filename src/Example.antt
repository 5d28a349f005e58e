-- ===== src/Example.antt =====
-- The programs in example/: their event handler, their handler of authorization errors, and what
-- they build and print. Output for a human reader is left out.
pub mod Clients
pub mod Handler
pub mod Provision

-- ===== src/Tests.antt =====
-- Concrete inputs: a JSON library, a server and handlers, and the theorems at these inputs.
mod Library
mod World
mod Texts
mod Documents
mod Sessions
mod Provisioning
mod Certificates
mod Deployments
mod Windows
mod Keys
mod Polls
mod Programs

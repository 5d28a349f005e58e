-- ===== src/Win.antt =====
-- modules/src/win: the HTTP client for Windows, over the calls of WinHTTP and of the Windows
-- cryptography API, which are parameters.
pub mod Api
pub mod Client
pub mod Host
pub mod Keys
pub mod Owns
pub mod Request
pub mod Strings

-- ===== src/Agent.antt =====
-- cmd/updated: the agent that checks the update feed and answers the shell over a socket.
pub mod Status
pub mod Store
pub mod Feed
pub mod Consent
pub mod Server
pub mod History
pub mod Requests
pub mod Loader

-- ===== src/Service.antt =====
-- src/main.cc: the routes of the service, from the text of a request to the response.
pub mod State
pub mod Handlers
pub mod Routes
pub mod Accounts
pub mod Requests
pub mod Messages
pub mod Replies

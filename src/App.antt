-- ===== src/App.antt =====
-- An application that users sign in to (applications/app-a): its own sessions, and the end of them
-- when the auth provider tells it to. The files of applications/app-b that are named here are the
-- same.
pub mod Store
pub mod Session
pub mod Logout
pub mod History
pub mod Internal
mod Tests
pub mod Samples

-- ===== src/Server.antt =====
-- `FeatureServer` of server/freebsd_ref/main.cpp: its sessions and the requests on them.
-- `Server/State` has the tables, `Server/Pages` the answers about a session, and `Server/Route`
-- `HandleRequest`. `none` stands for the crash on an execution that a session does not have.
pub mod State
pub mod Tables
pub mod Invariant
pub mod Pages
pub mod Transport
pub mod Stream
pub mod Events
pub mod Framing
pub mod Route
pub mod Paths
pub mod Requests
pub mod Safety
pub mod Tally
pub mod Summary
pub mod Creation
pub mod Handling
pub mod Reach
pub mod Settled
pub mod Survival
pub mod Finality
pub mod Serving
pub mod Watching
pub mod Deadline
pub mod Startup
pub mod Ids

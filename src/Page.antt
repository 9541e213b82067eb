-- ===== src/Page.antt =====
-- The two HTML pages of server/freebsd_ref/main.cpp, `SessionIndexHtml` and `DashboardHtml`: what they
-- show of the sessions, between the fixed text of the pages.
pub mod Cards
pub mod Index
pub mod Dashboard
pub mod Headings
pub mod Listing
pub mod Tags

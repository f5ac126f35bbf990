-- ===== src/Router.antt =====
-- router: the partitions of a space that the router knows.
pub mod Search
pub mod Space

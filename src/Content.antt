-- ===== src/Content.antt =====
-- internal/server/server.go: the content of a response, from files and from scripts. What the
-- operating system does is a `World`: the files that can be opened and what a script writes.
pub mod Capped
pub mod Files
pub mod Resolve
pub mod Response
pub mod Clean
pub mod Lines
pub mod ScriptsOff
pub mod Listeners
pub mod Confined
pub mod Started
pub mod Served
pub mod Outcomes
pub mod Isolated

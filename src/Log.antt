-- ===== src/Log.antt =====
-- internal/server/logger.go: what the logger writes. `Field` cleans a value for a log line, `Line`
-- puts the values together, `Open` opens and closes the two files.
pub mod Field
pub mod Shorten
pub mod Clean
pub mod Line
pub mod Record
pub mod Open
pub mod Resources
pub mod Session
pub mod Answered

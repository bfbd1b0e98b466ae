-- ===== src/UpdateCheck.antt =====
-- internal/updatecheck: which releases are updates (updatecheck.go) and the record of the last check
-- (cache.go). golang.org/x/mod/semver is a parameter, `Semver`.
pub mod Version
pub mod Cache
pub mod Records
pub mod History
pub mod Releases
pub mod Updates
pub mod Highest
pub mod Download
pub mod Verified
mod Tests

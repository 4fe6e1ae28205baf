-- ===== src/Updater.antt =====
-- core/updater: the versions, the manifest, the check for a new version, and the download of an installer.
pub mod Version
pub mod Manifest
pub mod Download
pub mod Installed
mod Tests

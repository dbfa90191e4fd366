-- ===== src/Tests.antt =====
-- Sample values, tests of the model on concrete inputs, and the theorems at such inputs.
mod Samples
mod WindowTests
mod ApiTests
mod PolicyTests
mod CecTests
mod DiscoveryTests
mod StartupTests
mod ConfigTests
mod EnrolTests
mod ControllerTests

-- ===== src/Discovery.antt =====
-- src/visiontak_client/discovery.py: Payload is the option's value, Leases where it is found.
pub mod Payload
pub mod Leases

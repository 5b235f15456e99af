-- ===== src/DeviceManager.antt =====
-- services/device-manager: the devices, their provisioning and their firmware.
pub mod Table
pub mod Models
pub mod Service
pub mod Provisioning
pub mod Lifecycle
pub mod Refines
pub mod Gauge
pub mod Race
pub mod Revival
pub mod Listing
pub mod Statistics
pub mod NewestFirst
pub mod Firmware
pub mod Rollouts
pub mod Routers
mod Tests

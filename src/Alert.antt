-- ===== src/Alert.antt =====
-- internal/alert: classes of sessions, the bounded tracking tables, and the sensor.
pub mod Class
pub mod Netip
pub mod Offenders
pub mod Cooldown
pub mod Scan
pub mod Probes
pub mod Sensor
pub mod Pipeline
pub mod Meta
pub mod Worker

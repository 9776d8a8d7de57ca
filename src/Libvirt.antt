-- ===== src/Libvirt.antt =====
-- runner/libvirt: the runner on libvirt.
pub mod NatCompare
pub mod Mac
pub mod Vbmc
pub mod Domains
pub mod Volumes
pub mod Customize
pub mod Output
pub mod Random
pub mod TempFiles
pub mod Lifecycle
pub mod Device
pub mod Runner
pub mod Inventory
pub mod Template
pub mod Exec
pub mod Hypervisor

-- ===== src/Kernel.antt =====
-- The sing-box kernel's stores: frontend/src/stores/kernelApi*.ts.
pub mod StartRunner
pub mod ProxyGroups
pub mod Machine
pub mod Lifecycle
pub mod Runtime

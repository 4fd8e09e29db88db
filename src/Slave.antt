-- ===== src/Slave.antt =====
-- src/ltr_srv_slave.c: the process between a client and the tracking process.
pub mod Mailbox
pub mod Messages
pub mod Delivery
pub mod Settled
pub mod Finite
pub mod Shown
pub mod Inverted

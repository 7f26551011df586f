-- ===== src/Tests.antt =====
-- Concrete inputs, and the theorems at them.
mod Toy
mod Witnesses
mod Delivery
mod Driver
mod Client

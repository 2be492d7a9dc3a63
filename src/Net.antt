-- ===== src/Net.antt =====
-- The parts of Go's package net that the program uses: CIDR texts, masks, and addresses in print.
-- An address is its bytes, four or sixteen.
pub mod Ipv4
pub mod Ipv6
pub mod Cidr
pub mod Mask

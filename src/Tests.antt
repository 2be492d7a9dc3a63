-- ===== src/Tests.antt =====
-- Tests on concrete inputs, and instances of the theorems.
mod Topologies
mod Networks
mod Kernels
mod Stores
mod Races
mod Names
mod Teardowns
mod Drivers
mod Hosts
mod Lives
mod Probes
mod Builders
mod Commands
mod Guests

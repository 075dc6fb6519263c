-- ===== src/Tests.antt =====
-- Runs of the theorems on concrete inputs.
mod Flags
mod Requests
mod Headers
mod Descriptors
mod Calls
mod Channels
mod Pools
mod Programs
mod Printing
mod Sources
mod Templates
mod Whole
mod Versions
mod Exits

-- ===== src/Tests.antt =====
-- Runs of the program's functions on known data, and the theorems at concrete inputs.
mod Archive
mod Checks
mod Crypt
mod Extract
mod Open
mod Place
mod Write

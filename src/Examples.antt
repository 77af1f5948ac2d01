-- ===== src/Examples.antt =====
-- The modules at concrete inputs.
mod Lives
mod Loops
mod Decisions
mod Projections
mod Codecs
mod Nights
mod Radios
mod Scans
mod Workers

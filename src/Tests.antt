-- ===== src/Tests.antt =====
-- Small inputs over whole numbers, and each theorem at one of them.
mod Samples
mod Detecting
mod Importing
mod Parsing
mod Photos
mod Routing
mod Sourcing
mod Storing
mod Admitting
mod Archiving
mod Sharing
mod Travelling

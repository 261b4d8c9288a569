-- ===== src/Examples.antt =====
-- Runs of the modelled server on small concrete inputs.
pub mod Data
pub mod Lists
pub mod Attributes
pub mod Codec
pub mod Sorting
pub mod Tables
pub mod CoapRequests
pub mod Login
pub mod Enrolment
pub mod Settings
pub mod Requests
pub mod NewKey
pub mod ClientRuns

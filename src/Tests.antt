-- ===== src/Tests.antt =====
-- Runs of the model on concrete data, with a small JSON library.
pub mod SampleJson
pub mod SampleLaws
pub mod SampleMembers
pub mod Samples
pub mod Bundles
pub mod Brokers
pub mod Agency
pub mod Enrolment
mod Handshake
mod Networks
pub mod Forwarding
pub mod Profiles
pub mod SampleTraces
pub mod Traces

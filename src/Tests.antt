-- ===== src/Tests.antt =====
-- Each property of the library at an input, and runs of the model.
mod Hash
mod Mapper
pub mod Run
pub mod Workers
mod Schedule
mod Race
mod Build
mod Pool
mod Upload
mod Program
mod Crew

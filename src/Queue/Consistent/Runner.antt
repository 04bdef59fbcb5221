-- ===== src/Queue/Consistent/Runner.antt =====
-- Every method of the runner keeps the tables consistent, whatever aria2, the resolvers and the
-- decryptors answer and whichever statements fail.
pub mod Start
pub mod Decrypt
pub mod Active
pub mod Tick

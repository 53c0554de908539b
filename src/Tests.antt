-- ===== src/Tests.antt =====
-- The properties at concrete inputs: a database client and the other parameters, and the witnesses.
pub mod Store
pub mod World
pub mod Chain
pub mod Witnesses
pub mod StellarWitnesses
pub mod AuthWitnesses
pub mod LifeWitnesses

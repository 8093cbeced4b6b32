-- ===== src/Dyfn.antt =====
-- The dynamic call layer, src/dyfn/.
pub mod Types
pub mod Call
pub mod Place
pub mod Fill
pub mod Store
pub mod Closure

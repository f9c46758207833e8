-- ===== src/Memory.antt =====
-- Stand-ins for the libraries, which show that the laws of `Interfaces` can be met and on which the
-- tests run.
pub mod Database
pub mod Encoding
pub mod Keys
pub mod Peers

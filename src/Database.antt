-- ===== src/Database.antt =====
-- Prisma, the database client that every service is written against (a package, not part of the
-- repository). `Client` has its calls, a parameter of the model, and `Reference` what its
-- documentation says of each of them.
mod Client
mod Reference
pub mod Rows
pub mod Transactions
pub mod Members
pub use Client.*
pub use Reference.*

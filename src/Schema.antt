-- ===== src/Schema.antt =====
-- The tables of the provider's database (auth-provider/server/prisma/schema.prisma), which its
-- server and its worker share. A column that no modelled code reads or writes is left out. A date
-- is its number of milliseconds; an identifier is the text of its UUID.
pub mod Accounts
pub mod Sessions
pub mod Events

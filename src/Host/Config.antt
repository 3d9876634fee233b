-- ===== src/Host/Config.antt =====
-- The configuration file (host/config.c): the line parser, the keys and what a configuration must
-- satisfy to be accepted. The lines are what `fgets` returns, one chunk of at most 1023 bytes each.
-- Whether the allocations made for a line succeed is an argument; the text of messages is not modelled.
pub mod Lines
pub mod Keys
pub mod Load
pub mod Allowed
pub mod Accepted

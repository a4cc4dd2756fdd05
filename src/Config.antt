-- ===== src/Config.antt =====
-- atpdxy/config.h and atpdxy/config.cpp: configuration variables with listeners, and the table of
-- all variables. A pointer to a variable is a number.
pub mod Var
pub mod Table
pub mod Yaml
pub mod Document
pub mod Convert
pub mod Load

-- ===== src/Log.antt =====
-- atpdxy/log.h and atpdxy/log.cpp.
pub mod Level
pub mod Event
pub mod Pattern
pub mod Formatter
pub mod Store
pub mod Logger
pub mod Macro
pub mod Manager
pub mod Define
pub mod Document
pub mod Configured

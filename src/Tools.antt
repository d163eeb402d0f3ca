-- ===== src/Tools.antt =====
-- src/ToolRegistry.cc and include/ToolRegistry.h: the registry of local tools.
pub mod Registry

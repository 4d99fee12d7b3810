-- ===== src/Sla.antt =====
-- Service levels: the policy of a ticket and its due dates (`Policy`), the
-- arithmetic of business hours (`Hours`), the instance row that the
-- breach worker polls (`Engine`), and the worker itself (`Breach`).
pub mod Policy
pub mod Hours
pub mod Engine
pub mod Breach
mod Tests

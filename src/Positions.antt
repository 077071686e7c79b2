-- ===== src/Positions.antt =====
-- The positions services: pkg/pub/service_positions.go, pkg/parser/epub/positions_service.go and
-- pkg/parser/pdf/positions_service.go.
pub mod Locators
pub mod PerResource
pub mod Pdf
pub mod Epub
mod Tests

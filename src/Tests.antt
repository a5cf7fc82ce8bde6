-- ===== src/Tests.antt =====
-- Concrete runs: tests of the definitions, and examples of the theorems with hypotheses.
pub mod UsbRuns
pub mod LoaderRuns
pub mod LibRuns
pub mod FlashRuns
pub mod Flash32Runs
pub mod DeviceRuns
pub mod CommandRuns
pub mod MemtestRuns
pub mod MenuRuns
pub mod DebugRuns
pub mod PcapRuns

-- ===== src/Tests.antt =====
-- Runs of the model at concrete inputs, and the theorems at inputs that meet their hypotheses.
mod AxesTests
mod HwTests
mod FramesTests
mod SlaveTests
mod TrackingTests
mod TirTests
mod ImageTests
mod CommTests
mod CalTests
mod ListTests
mod HashTests

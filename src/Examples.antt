-- ===== src/Examples.antt =====
-- Concrete runs: each theorem that has hypotheses or parameters, applied to values of its own.
mod Fixtures
mod Monitor
mod Runtime
mod Config
mod Dispatch
mod Assembly
mod Serve
mod Builder
mod Programs
mod Frames
mod Overlap
mod Reflected

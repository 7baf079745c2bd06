-- ===== src/Examples.antt =====
-- Runs of the modelled program on concrete inputs: each applies a theorem there. The libraries are
-- instantiated by small functions, and a job is a number.
mod Data
mod Admission
mod Traffic
mod Crowds
mod Proxy
mod Replies
mod Remote
mod Config
mod Controllers
mod Bundles
mod Factory
mod Logging
mod Startup
mod Serving
mod Runs

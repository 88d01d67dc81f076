-- ===== src/Examples.antt =====
-- Concrete inputs of the simulator's parts, and the theorems at them.
mod Setup
mod Decoding
mod Caches
mod Memory
mod Arithmetic
mod Traces
mod Translation
mod Running
mod Arguments
mod Files
mod Whole

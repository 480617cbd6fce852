-- ===== src/Tests.antt =====
-- Concrete runs of the model, and an instance of each theorem that has a hypothesis.
mod Text
mod Agent
mod Session
mod Heap
mod Mem
mod Memory
mod Goal
mod Http
mod Dns
mod Checksum

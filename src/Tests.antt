-- ===== src/Tests.antt =====
-- Runs of the model and applications of the theorems at concrete inputs.
mod Hashing
mod Dht
mod Files
mod Network
mod Metadata
mod Storage
mod Config
mod Client
mod Apps
mod Threads
mod Races
mod Experiments

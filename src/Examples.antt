-- ===== src/Examples.antt =====
-- Runs of the modelled code on concrete inputs, and the theorems at inputs that meet their
-- hypotheses.
mod Policies
mod Collections
mod Stores
mod Snapshots
mod KeySets
mod Rings
mod Streams
mod Wire
mod Files
mod Engines

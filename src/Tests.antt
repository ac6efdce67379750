-- ===== src/Tests.antt =====
-- Runs of the models on small inputs.
mod Statistics
mod Keys
mod Uploads
mod Memory
mod Connection
mod Tasks
mod Updates
mod Disks
mod Networks
mod FileRequests
mod Moves

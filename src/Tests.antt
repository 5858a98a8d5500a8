-- ===== src/Tests.antt =====
-- Runs of the model on the shop of Samples.
mod Money
mod Breaker
mod Payments
mod Keys
mod Orders
mod Tokens
mod Users
mod Worker
mod Group
mod Menu
mod Races
mod Replays
mod System
mod Notices
mod Overlaps
mod Startup
mod Settings
mod Migrations

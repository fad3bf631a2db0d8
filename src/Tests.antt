-- ===== src/Tests.antt =====
-- Runs of the model on concrete input: each theorem of the library applied where its hypotheses
-- hold.
mod Matching
mod Priority
mod Limits
mod Queues
mod Indexes
mod Trading
mod Placing
mod Api
mod Balances
mod Stopping
mod Histories
mod Market

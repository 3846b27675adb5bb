-- ===== src/Examples.antt =====
-- Runs of the model on concrete data, one for each result that has conditions.
mod FoodSafety
pub mod Stores
mod Histories
mod Orders
mod Keys
mod Callbacks
mod Limits
mod Sandboxes
mod Listings
mod Batches
mod Accounts
mod Requests

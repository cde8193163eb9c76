-- ===== src/Tests.antt =====
-- Concrete runs of the model: one for each result with conditions or arguments.
mod Samples
mod Drafts
mod Replies
mod Promises
mod Calendar
mod Merchant
mod Cases
mod Payments
mod Sessions
mod Reports

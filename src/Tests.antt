-- ===== src/Tests.antt =====
-- Runs of the code at concrete inputs.
mod Fixtures
mod Outside
mod Access
mod Money
mod Limits
mod Abuse
mod Servers
mod Secrets
mod Journeys
mod Samples
mod Orders

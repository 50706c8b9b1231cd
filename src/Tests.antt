-- ===== src/Tests.antt =====
-- The theorems on concrete inputs, over concrete stand-ins for the libraries and the server.
mod Characters
mod Encoding
mod Libraries
mod Sessions
mod Protocol
mod Administration
mod Payments
mod Webhooks
mod Cipher
mod Rows
mod Access
mod Personal
mod Puzzle
mod Client
mod Runs
mod Onboarding
mod Signatures
mod Passwords
mod Tables

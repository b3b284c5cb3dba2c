-- ===== src/Tests.antt =====
-- Runs of the model on concrete inputs, some of them those of tests/unit, and instances of the
-- theorems.
mod Messages
mod Requests
mod Built
mod Responses
mod Runtime
mod Pool
mod Network
mod Exchange
mod Coroutines
mod Clients
mod Sections

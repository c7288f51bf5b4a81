-- ===== src/Tests.antt =====
-- Runs of the model on concrete requests, and each theorem at an input of its own.
mod Samples
mod Envelope
mod Handler
mod Components
mod Codec
mod Query
mod Processor
mod Lambda
mod Register

-- ===== src/Interpretation.antt =====
-- The interpretation of a message by a language model: which of its failures are retried, and how
-- often (pke/src/pke/interpretation/retry.py, pke/src/pke/interpretation/deepseek_interpreter.py).
pub mod Messages
pub mod Retry
pub mod Interpreter
pub mod Examples

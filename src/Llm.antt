-- ===== src/Llm.antt =====
-- Calls of the language model: the pool of API keys and the retry loop
-- (src/api/utils/LLM_utils).
pub mod KeyPool
pub mod Retry
mod Tests

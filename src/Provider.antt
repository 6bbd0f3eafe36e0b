-- ===== src/Provider.antt =====
-- pkg/provider: choosing a provider for a model, limiting the rate of its requests, counting them,
-- and asking OpenAI.
pub mod Interface
pub mod Registry
pub mod RateLimit
pub mod Monitor
pub mod OpenAi

-- ===== src/RateLimit/Recovery.antt =====
-- No client is refused for ever by internal/middleware/rate_limit.go.
use llm_wiki_bff.Core.{ℕ, Option, none, some}
use llm_wiki_bff.Core.Text.{Text}
use llm_wiki_bff.RateLimit.{State}

-- The entry that a request gets.
given : (o : Option ℕ) → State → ℕ
given none s = s.fresh
given (some p) s = p

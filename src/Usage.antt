-- ===== src/Usage.antt =====
-- backend/models/result.py: token usage as a provider reports it.
use ai_control_center.Base.{ℕ, ◌+◌, ◌-◌, Bool, false, ◌||◌}

pub record TokenUsage : Type 0 where
  pub input_tokens : ℕ
  pub cached_input_tokens : ℕ
  pub gross_input_tokens : ℕ
  pub uncached_input_tokens : ℕ
  pub output_tokens : ℕ
  pub available : Bool

-- The constructor with its validator, which derives the gross and the uncached input.
-- The source's `max(input - cached, 0)` is the subtraction of natural numbers.
abbrev pub token_usage : ℕ → ℕ → ℕ → Bool → TokenUsage
token_usage input cached output available = record {
  input_tokens = input;
  cached_input_tokens = cached;
  gross_input_tokens = input;
  uncached_input_tokens = input - cached;
  output_tokens = output;
  available = available;
}

abbrev pub no_usage : TokenUsage
no_usage = token_usage 0 0 0 false

abbrev pub total_tokens : TokenUsage → ℕ
total_tokens usage = usage.input_tokens + usage.output_tokens

-- The sum that both the token budget and the day runner form.
abbrev pub add_usage : TokenUsage → TokenUsage → TokenUsage
add_usage previous usage =
    token_usage (previous.input_tokens + usage.input_tokens)
      (previous.cached_input_tokens + usage.cached_input_tokens)
      (previous.output_tokens + usage.output_tokens) (previous.available || usage.available)

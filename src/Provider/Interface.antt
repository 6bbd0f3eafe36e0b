-- ===== src/Provider/Interface.antt =====
-- pkg/provider/provider.go: what a provider is asked, and what it answers.
use skylark.Base.{Option, List}
use skylark.Base.Int.{ℤ}
use skylark.Text.{Text}

pub data ErrorCode : Type 0 where
  rate_limit invalid_input server_error timeout authentication : ErrorCode

pub record ProviderError : Type 0 where
  pub code : ErrorCode
  pub message : Text

pub record Usage : Type 0 where
  pub prompt : ℤ
  pub completion : ℤ
  pub total : ℤ

-- The function of a tool call, with the call's id.
pub record FunctionCall : Type 0 where
  pub id : Text
  pub name : Text
  pub arguments : Text

pub record Response : Type 0 where
  pub content : Text
  pub usage : Usage
  pub error : Option Text
  pub tool_calls : List FunctionCall

-- `Float` is float64.
pub record RequestOptions (Float : Type 0) : Type 0 where
  pub model : Text
  pub temperature : Float
  pub max_tokens : ℤ

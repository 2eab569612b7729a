-- ===== src/Js/Platform.antt =====
-- The platform: functions of the language's host and of its built-in modules.
use casuya_live.Common.{String, Option}
use casuya_live.Js.Values.{Float, Value}

-- `none` is an exception. A query gives `some none` where the URL has no such parameter.
pub record Runtime (F : Float) : Type 0 where
  pub parse : String → Option (Value F.N)
  pub stringify : Value F.N → String
  pub hmac : String → String → String
  pub encode : String → String
  pub decode : String → String
  pub query : String → String → Option (Option String)
  pub parse_date : String → F.N
  pub iso_date : F.N → String

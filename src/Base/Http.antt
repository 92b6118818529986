-- ===== src/Base/Http.antt =====
-- `HttpException` of the web framework, less the text of its detail.
use fastapi_langgraph_templa.Base.{ℕ}

pub record HttpException : Type 0 where
  pub status_code : ℕ

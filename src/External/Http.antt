-- ===== src/External/Http.antt =====
-- What a `reqwest` call can give back: no response, or one with a status, whether the crate calls
-- that status a success, and the body if it is JSON.
use autonomous_agent_account.Base.{ℕ, Bool, Option}
use autonomous_agent_account.External.Json.{Json}

module _ ⦃J : Json⦄ where
  open J use {Value}

  pub record Response : Type 0 where
    pub is_success : Bool
    pub status : ℕ
    pub body : Option Value

  pub data Reply : Type 0 where
    network_error : Reply
    response : Response → Reply

-- ===== src/Proxy/Request/Nonce.antt =====
-- What the nonce of a tool call depends on.
use autonomous_agent_account.Base.{String, ◌≡◌, refl, Option}
use autonomous_agent_account.External.Json.{Json}
use autonomous_agent_account.External.Crypto.{Crypto}
use autonomous_agent_account.Proxy.Request.{entry, stable_nonce}

module _ ⦃J : Json⦄ ⦃K : Crypto⦄ where
  open J use {Object, map_get}

  entry-same :
      (key : String) (req req' : Object)
      → map_get req key ≡ map_get req' key
      → entry key req ≡ entry key req'
  entry-same key req req' e = rw (e, entry) refl

  -- Two requests from one device with the same id, method and parameters have the same nonce,
  -- whatever else they carry: a request that is sent again is known again.
  pub stable_nonce-semantic :
      (device : Option String) (req req' : Object)
      → map_get req "id" ≡ map_get req' "id"
      → map_get req "method" ≡ map_get req' "method"
      → map_get req "params" ≡ map_get req' "params"
      → stable_nonce device req ≡ stable_nonce device req'
  unfolding stable_nonce
  stable_nonce-semantic device req req' i m p =
      rw
        (
          entry-same "id" req req' i,
          entry-same "method" req req' m,
          entry-same "params" req req' p,
          stable_nonce,
        )
        refl

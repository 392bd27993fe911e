-- ===== src/Steps.antt =====
-- The pool's history as a step relation: a step is a message that `execute` of
-- contracts/pool_v2/src/contract.rs lets through, from any sender at any time; a message that fails
-- changes nothing.
pub mod Handled
pub mod Kept
pub mod Replay
pub mod Safety
pub mod Soundness
use democratized_prime_smart.Cosmwasm.{Cosmwasm}
use democratized_prime_smart.Dispatch.{ExecuteMsg, execute}
use democratized_prime_smart.Host.{Env, Host, MessageInfo}
use democratized_prime_smart.Pool.{Pool}
use democratized_prime_smart.Prelude.{ok, ◌≡◌}
use democratized_prime_smart.Responses.{Response}

module _ ⦃c : Cosmwasm⦄ (host : Host) where
  pub data Step : Pool → Pool → Type 0 where
    executes :
        {pool : Pool} {out : Pool × Response}
        → (env : Env) (info : MessageInfo) (msg : ExecuteMsg)
        → execute host pool env info msg ≡ ok out
        → Step pool out.0

  pub data Reaches : Pool → Pool → Type 0 where
    here : {pool : Pool} → Reaches pool pool
    then_step : {pool mid pool' : Pool} → Reaches pool mid → Step mid pool' → Reaches pool pool'

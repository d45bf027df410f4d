-- ===== src/Pool/Tests.antt =====
-- A nominator pool and a single nominator pool of the sample network.
use ton_validators_rewards_a.Base.{◌≡◌, refl}
use ton_validators_rewards_a.Base.Int.{negsuc}
use ton_validators_rewards_a.Tlb.{AccountId}
use ton_validators_rewards_a.Pool.{
  fetch_pool_data, fetch_uncached, nominator_pool_data, nominator_data, pool_type_by_code_hash,
  single_nominator_v10_code_hash,
}
use ton_validators_rewards_a.Pool.Caching.{fetch_pool_data-again}
use ton_validators_rewards_a.Pool.Nominators.{IsAccount, nominator_pool_data-IsAccount}
use ton_validators_rewards_a.Sample.{tongo, client, fresh, pool_data}
use ton_validators_rewards_a.Base.{map}
use ton_validators_rewards_a.Base.Text.{text_eq}
use ton_validators_rewards_a.State.{request}
use ton_validators_rewards_a.Retry.{retry_loop}

abbrev pool : AccountId
pool = record { workchain = negsuc 0; address = 70 }

fetch_pool_data-again_example :
    fetch_pool_data tongo pool
      (client single_nominator_v10_code_hash)
      (fetch_pool_data tongo pool (client single_nominator_v10_code_hash) fresh).1
    ≡ fetch_pool_data tongo pool (client single_nominator_v10_code_hash) fresh
unfolding fetch_pool_data fetch_uncached pool_type_by_code_hash request retry_loop text_eq
fetch_pool_data-again_example =
    fetch_pool_data-again tongo pool refl
      (λ c roles e. let same : 31 ≡ roles.owner_address = cc in rw (← same) refl)
      (client single_nominator_v10_code_hash) (client single_nominator_v10_code_hash) fresh refl

nominator_pool_data-IsAccount_example :
    IsAccount tongo pool_data
      (nominator_pool_data tongo pool_data)
      (map (nominator_data pool_data.withdraw_requests) pool_data.nominators)
nominator_pool_data-IsAccount_example = nominator_pool_data-IsAccount tongo pool_data

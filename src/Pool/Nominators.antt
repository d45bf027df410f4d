-- ===== src/Pool/Nominators.antt =====
-- What the data of a nominator pool says of its nominators.
use ton_validators_rewards_a.Base.{ℕ, ◌≡◌, refl, ap, List, [], ◌∷◌, map, some, length, length-map}
use ton_validators_rewards_a.Base.Int.{ℤ, pos, ◌+ℤ◌, sum_ℤ, int_laws}
use ton_validators_rewards_a.Tlb.{Tongo, GetPoolDataTlb, PackedNominatorData}
use ton_validators_rewards_a.Pool.{
  NominatorData, PoolData, nominator_data, nominator_pool_data, add_amounts,
}

abbrev pub amounts : List NominatorData → List ℤ
amounts = map (λ n. pos n.amount)

add_amounts_lem :
    (ns : List NominatorData) (acc : ℤ) → add_amounts acc ns ≡ acc +ℤ sum_ℤ (amounts ns)
unfolding add_amounts
add_amounts_lem [] acc = omega int_laws
add_amounts_lem (n ∷ ns) acc = rw (add_amounts_lem ns (acc +ℤ pos n.amount)) (omega int_laws)

-- A nominator's address and its two amounts, as reported and as stored.
abbrev pub reported_entry : NominatorData → ℕ × ℕ × ℕ
reported_entry n = (n.address, n.amount, n.pending_deposit_amount)

abbrev pub stored_entry : ℕ × PackedNominatorData → ℕ × ℕ × ℕ
stored_entry (key, n) = (key, n.amount, n.pending_deposit_amount)

-- The data is a full account of the pool's dictionary: a nominator for each entry, with the amounts
-- of the entry, and their sum.
pub record IsAccount (t : Tongo) (tf : GetPoolDataTlb) (pd : PoolData t) (ns : List NominatorData)
    : Type 0 where
  pub listed : pd.nominators ≡ some ns
  pub complete : length ns ≡ length tf.nominators
  pub entries : map reported_entry ns ≡ map stored_entry tf.nominators
  pub summed : pd.nominators_amount ≡ some (sum_ℤ (amounts ns))

map_entries :
    (requests : List ℕ) (items : List (ℕ × PackedNominatorData))
    → map reported_entry (map (nominator_data requests) items) ≡ map stored_entry items
unfolding nominator_data
map_entries requests [] = refl
map_entries requests (x ∷ items) = rw (map_entries requests items)

-- Every nominator of the decoded pool is reported once with its own amounts, and the pool's
-- nominators' stake is the sum of these.
pub nominator_pool_data-IsAccount :
    (t : Tongo) (tf : GetPoolDataTlb)
    → IsAccount t tf
        (nominator_pool_data t tf)
        (map (nominator_data tf.withdraw_requests) tf.nominators)
unfolding nominator_pool_data
nominator_pool_data-IsAccount t tf = record {
  listed = refl;
  complete = length-map tf.nominators (nominator_data tf.withdraw_requests);
  entries = map_entries tf.withdraw_requests tf.nominators;
  summed =
      rw (add_amounts_lem (map (nominator_data tf.withdraw_requests) tf.nominators) (pos 0))
        (ap some (omega int_laws));
}

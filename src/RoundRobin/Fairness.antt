-- ===== src/RoundRobin/Fairness.antt =====
-- No usable liteserver is passed over: as long as the health of the connections does not change, each
-- one is chosen within a round of requests.
use native.Mathlib.Nat.{mod-lt, mod-eq_of_lt, mod-add-mod, add-mod_right}
use ton_validators_rewards_a.Base.{
  ℕ, zero, suc, ◌+◌, ◌-◌, ◌%◌, ◌^◌, ◌≤◌, ◌<◌, ◌≡◌, ◌∙◌, ap, sym, true, false, Option, some, List,
  [], ◌∷◌, arith, length, get_elem?, get_elem?-lt,
}
use native.Mathlib.Decide.{dec_le}
use ton_validators_rewards_a.Base.Int.{ℤ, pos}
use ton_validators_rewards_a.Outcome.{ok}
use ton_validators_rewards_a.Retry.{RetryExclude, is_excluded}
use ton_validators_rewards_a.RoundRobin.{
  RoundRobinClient, PoolStatus, has_connections, slot, healthy_from, healthy_at, excluded_of, bump,
  entry_at, choose, next_client,
}
use ton_validators_rewards_a.RoundRobin.Choice.{
  healthy_from_complete, next_client-nonempty, slot-lt,
}

-- Within `n` steps from any counter the remainder takes every value below `n`.
catch_up : (c n p : ℕ) → p < n → (k : ℕ) × (k < n) × ((c + k) % n ≡ p)
catch_up c n p h = elim (dec_le (c % n) p) [
  | yes le ↦
      let up : c % n + (p - c % n) ≡ p = omega arith in
      (p - c % n, omega arith, sym (mod-add-mod c n (p - c % n)) ∙ rw up (mod-eq_of_lt h))
  | no gt ↦
      let below = mod-lt c {m = n} (omega arith) in
      let up : c % n + (p + n - c % n) ≡ p + n = omega arith in
      (
        p + n - c % n,
        omega arith,
        sym (mod-add-mod c n (p + n - c % n)) ∙ rw up (add-mod_right p n ∙ mod-eq_of_lt h),
      )
]

module _ {Conn : Type 0} (status : PoolStatus Conn) where
  length-healthy_from :
      (excluded : List ℤ) (i : ℕ) (es : List Conn)
      → length (healthy_from status excluded i es) ≤ length es
  unfolding healthy_from
  length-healthy_from excluded i [] = omega arith
  length-healthy_from excluded i (e ∷ es) = ground (arith, length-healthy_from excluded (suc i) es)

  -- The client behind `k` requests.
  abbrev pub after : Option RetryExclude → ℕ → RoundRobinClient Conn → RoundRobinClient Conn
  after exclude zero r = r
  after exclude (suc k) r = after exclude k (next_client status exclude r).1

  after-counter :
      (exclude : Option RetryExclude) (k : ℕ) (r : RoundRobinClient Conn)
      → 0 < length r.entries
      → r.counter + k < 2 ^ 63
      → after exclude k r ≡ record r { counter = r.counter + k }
  after-counter exclude zero r nonempty small = ground arith
  after-counter exclude (suc k) r nonempty small =
      let next : bump r ≡ record r { counter = r.counter + 1 } = ground arith in
      rw (next_client-nonempty status exclude r nonempty, next)
        (after-counter exclude k (record r { counter = r.counter + 1 }) nonempty (omega arith)
          ∙ ground arith)

  choose-hit :
      (es : List Conn) (healthy : List ℕ) (c p i : ℕ) {e : Conn}
      → slot c (length healthy) ≡ some p
      → get_elem? healthy p ≡ some i
      → get_elem? es i ≡ some e
      → choose es healthy c ≡ ok (some e, pos i)
  unfolding choose
  choose-hit es [] c p i at picked found = cc
  choose-hit es (h ∷ hs) c p i at picked found =
      rw at (rw (healthy_at, picked) (rw (entry_at, found)))

  -- As long as the health of the connections and the exclude list stay the same over all these
  -- requests, a client that is connected and not excluded is chosen by one of the next requests, as
  -- many as there are clients, if the counter stays below 2 ^ 63.
  pub next_client-fair :
      (exclude : Option RetryExclude) (r : RoundRobinClient Conn) (i : ℕ) {e : Conn}
      → get_elem? r.entries i ≡ some e
      → has_connections status e ≡ true
      → is_excluded (pos i) (excluded_of exclude) ≡ false
      → r.counter + length r.entries < 2 ^ 63
      → (k : ℕ) × (k < length r.entries)
        × ((next_client status exclude (after exclude k r)).0 ≡ ok (some e, pos i))
  next_client-fair exclude r i found up free small =
      let healthy = healthy_from status (excluded_of exclude) 0 r.entries in
      let some_entry = get_elem?-lt r.entries i found in
      let some_room = length-healthy_from (excluded_of exclude) 0 r.entries in
      let (p, listed) =
        healthy_from_complete status (excluded_of exclude) r.entries 0 i i (omega arith) found up
          free in
      let (k, soon, hit) =
        catch_up (r.counter + 1) (length healthy) p (get_elem?-lt healthy p listed) in
      let now : (r.counter + k + 1) % 2 ^ 64 ≡ r.counter + 1 + k = omega arith in
      let at = slot-lt (r.counter + 1 + k) (length healthy) (omega arith) (omega arith) in
      (
        k,
        omega arith,
        rw
            (
              after-counter exclude k r (omega arith) (omega arith),
              next_client-nonempty status exclude (record r { counter = r.counter + k })
                  (omega arith),
              now,
            )
            (choose-hit r.entries healthy _ p i (at.0 ∙ ap some hit) listed found),
      )

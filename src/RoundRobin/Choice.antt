-- ===== src/RoundRobin/Choice.antt =====
-- Which client a request gets.
use mathlib.Core.Option.{some-injective}
use native.Mathlib.Nat.{mod-lt}
use ton_validators_rewards_a.Base.{
  ℕ, ◌==◌, zero, suc, ◌+◌, ◌%◌, ◌^◌, ◌<◌, ◌≡◌, refl, true, false, Option, some, List, [], ◌∷◌,
  arith, length, get_elem?, Bool-cases, inl, inr, get_elem?_total, get_elem?-lt, All, All-map,
  All-get_elem?, get_elem?-lt, lt→ltb,
}
use ton_validators_rewards_a.Base.Int.{ℤ, pos}
use ton_validators_rewards_a.Outcome.{ok}
use ton_validators_rewards_a.Retry.{RetryExclude, is_excluded}
use ton_validators_rewards_a.RoundRobin.{
  RoundRobinClient, PoolStatus, has_connections, slot, healthy_from, excluded_of, bump, entry_at,
  healthy_at, choose, next_client,
}

module _ {Conn : Type 0} (status : PoolStatus Conn) (excluded : List ℤ) where
  -- The entry `k` places behind the first is connected and not excluded.
  abbrev IsHealthyAt : List Conn → ℕ → ℕ → Type 0
  IsHealthyAt es i j =
      (e : Conn) × (k : ℕ) × (i + k ≡ j)
      × (get_elem? es k ≡ some e)
      × (has_connections status e ≡ true)
      × (is_excluded (pos j) excluded ≡ false)

  shift :
      (e : Conn) (es : List Conn) (i j : ℕ) → IsHealthyAt es (suc i) j → IsHealthyAt (e ∷ es) i j
  shift e es i j (x, k, at, found, up, free) = (x, suc k, omega arith, found, up, free)

  healthy_from_sound :
      (es : List Conn) (i : ℕ) → All (IsHealthyAt es i) (healthy_from status excluded i es)
  unfolding healthy_from
  healthy_from_sound [] i = tt
  healthy_from_sound (e ∷ es) i =
      let rest =
        All-map (shift e es i) (healthy_from status excluded (suc i) es)
          (healthy_from_sound es (suc i)) in
      elim (Bool-cases (is_excluded (pos i) excluded)) [
        | inl out ↦ rw out rest
        | inr free ↦ elim (Bool-cases (has_connections status e)) [
          | inl up ↦ rw (free, up) ((e, 0, omega arith, refl, up, free), rest)
          | inr down ↦ rw (free, down) rest
        ]
      ]

  -- Every client that is connected and not excluded is on the list.
  pub healthy_from_complete :
      (es : List Conn) (i k j : ℕ) {e : Conn}
      → j ≡ i + k
      → get_elem? es k ≡ some e
      → has_connections status e ≡ true
      → is_excluded (pos j) excluded ≡ false
      → (p : ℕ) × (get_elem? (healthy_from status excluded i es) p ≡ some j)
  unfolding healthy_from
  healthy_from_complete [] i k j at found up free = cc
  healthy_from_complete (e ∷ es) i zero j at found up free =
      let here : i ≡ j = omega arith in
      let connected = rw (← some-injective _ _ found) at up in (0, rw (here, free, connected))
  healthy_from_complete (e ∷ es) i (suc k) j at found up free =
      let (p, listed) = healthy_from_complete es (suc i) k j (omega arith) found up free in
      elim (Bool-cases (is_excluded (pos i) excluded)) [
        | inl out ↦ (p, rw out listed)
        | inr kept ↦ elim (Bool-cases (has_connections status e)) [
          | inl connected ↦ (suc p, rw (kept, connected) listed)
          | inr down ↦ (p, rw (kept, down) listed)
        ]
      ]

==-zero_of_pos : (n : ℕ) → 0 < n → (n == 0) ≡ false
==-zero_of_pos n h = ground arith

-- `slot` gives an index below the divisor, as long as the counter is a positive int64.
pub slot-lt : (c n : ℕ) → c < 2 ^ 63 → 0 < n → (slot c n ≡ some (c % n)) × (c % n < n)
unfolding slot
slot-lt c n small positive = (rw (lt→ltb c (2 ^ 63) small), mod-lt c positive)

module _ {Conn : Type 0} (status : PoolStatus Conn) where
  -- What a request may get: an entry, with its index, and a usable one if there is any.
  pub record IsServed (exclude : Option RetryExclude) (r : RoundRobinClient Conn) (e : Conn)
      (idx : ℕ) : Type 0 where
    pub found : get_elem? r.entries idx ≡ some e
    pub usable :
        (k : ℕ) {u : Conn}
        → get_elem? r.entries k ≡ some u
        → has_connections status u ≡ true
        → is_excluded (pos k) (excluded_of exclude) ≡ false
        → (has_connections status e ≡ true) × (is_excluded (pos idx) (excluded_of exclude) ≡ false)

  choose-IsServed :
      (exclude : Option RetryExclude) (r : RoundRobinClient Conn) (healthy : List ℕ) (c : ℕ)
      → healthy_from status (excluded_of exclude) 0 r.entries ≡ healthy
      → 0 < length r.entries
      → c < 2 ^ 63
      → (e : Conn) × (idx : ℕ) × (choose r.entries healthy c ≡ ok (some e, pos idx))
        × IsServed exclude r e idx
  unfolding choose
  choose-IsServed exclude r [] c h nonempty small =
      let (at, below) = slot-lt c (length r.entries) small nonempty in
      let (e, found) = get_elem?_total r.entries (c % length r.entries) below in
      (
        e,
        c % length r.entries,
        rw at (rw (entry_at, found)),
        record {
          found = found;
          usable = λ k there up free.
              let (p, listed) =
                healthy_from_complete status (excluded_of exclude) r.entries 0 k k (omega arith)
                  there up free in
              absurd (nothing_listed p (rw h at listed));
        },
      )
    where
      nothing_listed : (p : ℕ) {k : ℕ} → get_elem? {A = ℕ} [] p ≡ some k → ⊥
      nothing_listed p e = cc
  choose-IsServed exclude r (i ∷ is) c h nonempty small =
      let (at, below) = slot-lt c (length (i ∷ is)) small (omega arith) in
      let (j, picked) = get_elem?_total (i ∷ is) (c % length (i ∷ is)) below in
      let sound = rw h at (healthy_from_sound status (excluded_of exclude) r.entries 0) in
      let (e, k, same', found, up, free) =
        All-get_elem? (IsHealthyAt status (excluded_of exclude) r.entries 0) (i ∷ is) _ sound
          picked in
      let same : k ≡ j = omega arith in
      let there = rw same at found in
      (
        e,
        j,
        rw at (rw (healthy_at, picked) (rw (entry_at, there))),
        record { found = there; usable = λ _ _ _ _. (up, free) },
      )

  -- With an entry, the choice is made and the counter goes on.
  pub next_client-nonempty :
      (exclude : Option RetryExclude) (r : RoundRobinClient Conn)
      → 0 < length r.entries
      → next_client status exclude r ≡ (
        choose r.entries (healthy_from status (excluded_of exclude) 0 r.entries) (bump r).counter,
        bump r,
      )
  unfolding next_client
  next_client-nonempty exclude r nonempty = rw (==-zero_of_pos (length r.entries) nonempty)

  -- With an entry and a counter below 2^63 a request is served, and by a connected client that is not
  -- excluded, if there is one. A larger counter turns negative as an int.
  pub next_client-IsServed :
      (exclude : Option RetryExclude) (r : RoundRobinClient Conn)
      → 0 < length r.entries
      → r.counter + 1 < 2 ^ 63
      → (e : Conn) × (idx : ℕ) × ((next_client status exclude r).0 ≡ ok (some e, pos idx))
        × IsServed exclude r e idx
  next_client-IsServed exclude r nonempty small =
      let (e, idx, chosen, served) =
        choose-IsServed exclude r (healthy_from status (excluded_of exclude) 0 r.entries)
          (bump r).counter refl nonempty (omega arith) in
      (e, idx, rw (next_client-nonempty exclude r nonempty) chosen, served)

  -- If some client is connected and not excluded, and the counter stays below 2 ^ 63, a request is
  -- served by such a client, which may be another one, with its index.
  pub next_client-usable :
      (exclude : Option RetryExclude) (r : RoundRobinClient Conn) (k : ℕ) {u : Conn}
      → get_elem? r.entries k ≡ some u
      → has_connections status u ≡ true
      → is_excluded (pos k) (excluded_of exclude) ≡ false
      → r.counter + 1 < 2 ^ 63
      → (e : Conn) × (idx : ℕ) × ((next_client status exclude r).0 ≡ ok (some e, pos idx))
        × (get_elem? r.entries idx ≡ some e)
        × (has_connections status e ≡ true)
        × (is_excluded (pos idx) (excluded_of exclude) ≡ false)
  next_client-usable exclude r k there up free small =
      let nonempty = get_elem?-lt r.entries k there in
      let (e, idx, picked, served) = next_client-IsServed exclude r (omega arith) small in
      let (up', free') = served.usable k there up free in (e, idx, picked, served.found, up', free')

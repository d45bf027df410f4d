-- ===== src/RoundRobin/Excluded.antt =====
-- A liteserver that has dropped the state is not asked again in the same retry session.
use ton_validators_rewards_a.Base.{
  ℕ, ◌+◌, ◌%◌, ◌^◌, ◌<◌, ◌≡◌, ◌≢◌, refl, sym, ap, ◌∙◌, true, false, some, length, get_elem?,
  get_elem?-lt, arith,
}
use ton_validators_rewards_a.Base.Int.{ℤ, pos, eq_ℤ_refl}
use ton_validators_rewards_a.Outcome.{Outcome, ok, err, panic, Error}
use ton_validators_rewards_a.Retry.{
  RetryExclude, Session, is_excluded, is_state_gc_error, note_gc, failed,
}
use ton_validators_rewards_a.RoundRobin.{
  RoundRobinClient, has_connections, excluded_of, bump, next_client, client_for_request, used,
}
use ton_validators_rewards_a.RoundRobin.Choice.{
  next_client-IsServed, next_client-nonempty, next_client-usable,
}
use ton_validators_rewards_a.RoundRobin.Forward.{
  Method, LiteApi, Requests, Request, on_net, forward,
}

err_injective : {A : Type 0} {a b : Error} → Path (Outcome A) (err a) (err b) → a ≡ b
err_injective h = cc

module _ {W : Type 0} (api : LiteApi W) {A : Type 0} where
  open api use {Conn}

  -- The request as it is made with entry number `idx`.
  abbrev pub made_by : (idx : ℕ) (e : Conn) → Method Conn W A → Request api A
  made_by idx e call s = on_net api (call (some e) s.world.client.target_block) (record s {
    exclude = used (api.status s.world.net) s.exclude (pos idx);
    world = (record s.world { client = bump s.world.client });
  })

  forward_picked :
      (call : Method Conn W A) (s : Session (Requests Conn W)) (idx : ℕ) (e : Conn)
      → 0 < length s.world.client.entries
      → (next_client (api.status s.world.net) s.exclude s.world.client).0 ≡ ok (some e, pos idx)
      → forward api call s ≡ made_by idx e call s
  unfolding forward client_for_request
  forward_picked call s idx e nonempty picked =
      let onward =
        next_client-nonempty (api.status s.world.net) s.exclude s.world.client nonempty in
      rw (picked, ap (λ x. x.1) onward, client_for_request) refl

  -- After an error of this kind the session excludes the entry that the request was made with.
  failed-excluded :
      (x : Outcome A × Session (Requests Conn W)) (i : ℤ) (y : RetryExclude) (m : Error)
      → x.1.exclude ≡ some (record y { last_used = i })
      → x.0 ≡ err m
      → is_state_gc_error m ≡ true
      → is_excluded i (excluded_of (failed x).exclude) ≡ true
  unfolding note_gc
  failed-excluded (ok a, s) i y m has bad gc = cc
  failed-excluded (panic, s) i y m has bad gc = cc
  failed-excluded (err e, s) i y m has bad gc =
      let same : e ≡ m = err_injective bad in rw (has, same, gc, eq_ℤ_refl i) refl

  -- A failed attempt that is repeated has the same client.
  failed-client :
      (x : Outcome A × Session (Requests Conn W)) → (failed x).world.client ≡ x.1.world.client
  failed-client (ok a, s) = refl
  failed-client (err e, s) = refl
  failed-client (panic, s) = refl

  -- The next request, where a connected client is not excluded.
  next_made :
      (call : Method Conn W A) (next : Session (Requests Conn W)) (r : RoundRobinClient Conn)
      (i k : ℕ) {u : Conn}
      → next.world.client ≡ bump r
      → r.counter + 2 < 2 ^ 63
      → is_excluded (pos i) (excluded_of next.exclude) ≡ true
      → get_elem? r.entries k ≡ some u
      → has_connections (api.status next.world.net) u ≡ true
      → is_excluded (pos k) (excluded_of next.exclude) ≡ false
      → (j : ℕ) × (e : Conn) × (i ≢ j)
        × (get_elem? r.entries j ≡ some e)
        × (has_connections (api.status next.world.net) e ≡ true)
        × (forward api call next ≡ made_by j e call next)
  next_made call next r i k {u} onward small gone there up free =
      let entries : next.world.client.entries ≡ r.entries = ap (λ c. c.entries) onward in
      let count : next.world.client.counter ≡ (r.counter + 1) % 2 ^ 64 =
        ap (λ c. c.counter) onward in
      let there' : get_elem? next.world.client.entries k ≡ some u =
        ap (λ es. get_elem? es k) entries ∙ there in
      let (e, j, picked, found, connected, kept) =
        next_client-usable (api.status next.world.net) next.exclude next.world.client k there' up
          free (omega arith) in
      let below = get_elem?-lt next.world.client.entries k there' in
      let nonempty : 0 < length next.world.client.entries = omega arith in
      (
        j,
        e,
        λ same.
            let e =
              sym gone ∙ ap (λ n. is_excluded (pos n) (excluded_of next.exclude)) same ∙ kept in
            cc,
        ap (λ es. get_elem? es j) (sym entries) ∙ found,
        connected,
        forward_picked call next j e nonempty picked,
      )

  -- If a request in a session with an exclude list fails with a state-gc error, then it was made
  -- with an entry of the client, and the next request of the session is made with another entry of
  -- it, which is connected then, where some entry is then connected and not excluded, and the
  -- counter stays below 2 ^ 63.
  pub forward-excluded :
      (first second : Method Conn W A) (s : Session (Requests Conn W)) (x : RetryExclude)
      (m : Error) (k : ℕ) {u : Conn}
      → s.world.client.counter + 2 < 2 ^ 63
      → s.exclude ≡ some x
      → (forward api first s).0 ≡ err m
      → is_state_gc_error m ≡ true
      → let next = failed (forward api first s) in
        get_elem? s.world.client.entries k ≡ some u
        → has_connections (api.status next.world.net) u ≡ true
        → is_excluded (pos k) (excluded_of next.exclude) ≡ false
        → (i : ℕ) × (j : ℕ) × (e : Conn) × (e' : Conn) × (i ≢ j)
          × (get_elem? s.world.client.entries i ≡ some e)
          × (get_elem? s.world.client.entries j ≡ some e')
          × (has_connections (api.status next.world.net) e' ≡ true)
          × (forward api first s ≡ made_by i e first s)
          × (forward api second next ≡ made_by j e' second next)
  forward-excluded first second s x m k small has bad gc there up free =
      let status = api.status s.world.net in
      let client = s.world.client in
      let below = get_elem?-lt client.entries k there in
      let nonempty : 0 < length client.entries = omega arith in
      let (e, i, picked, served) =
        next_client-IsServed status s.exclude client nonempty (omega arith) in
      let made = forward_picked first s i e nonempty picked in
      let used_i = ap (λ y. y.1.exclude) made ∙ ap (λ y. used status y (pos i)) has in
      let gone = failed-excluded (forward api first s) (pos i) x m used_i bad gc in
      let onward = failed-client (forward api first s) ∙ ap (λ y. y.1.world.client) made in
      let (j, e', other, found, connected, again) =
        next_made second (failed (forward api first s)) client i k onward small gone there up
          free in
      (i, j, e, e', other, served.found, found, connected, made, again)

-- ===== src/Loaders/Sample.antt =====
-- Loaders that cache nothing, on the sample chain.
use ton_validators_rewards_a.Base.{
  ℕ, ◌+◌, ◌==◌, none, some, List, [], ◌∷◌, if◌then◌else◌, leb, ◌≡◌, refl, ap, sym, Bool-cases, inl,
  inr, arith,
}
use ton_validators_rewards_a.Base.Text.{codes}
use ton_validators_rewards_a.Outcome.{
  Outcome, ok, err, panic, Action, lift, ◌>>=◌, Keeps-bind, Keeps-lift, Ensures, Ensures-in,
  continue-Ensures, ok_injective,
}
use ton_validators_rewards_a.Tlb.{BlockIdExt}
use ton_validators_rewards_a.Loaders.{
  Result, loaded, skip_cache, Dataloader, DataLoaders, Encoding, LoaderClient,
}
use ton_validators_rewards_a.Loaders.Kept.{LoadsByBatch}
use ton_validators_rewards_a.Loaders.Honest.{IsHonest, IsEncoding, Answers, GivesBatched}
use ton_validators_rewards_a.Sample.{tongo, block}

abbrev pub encoding : Encoding tongo
encoding = record {
  json_marshal = λ ns. 91 ∷ ns;
  json_unmarshal = λ s. elim s [ [] ↦ err (codes "unexpected end of JSON input") | c ∷ cs ↦ ok cs ];
  marshal = λ p. ok p;
  to_boc = λ c. ok (c ∷ []);
  deserialize_boc = λ s. elim s [ [] ↦ err (codes "invalid magic prefix") | c ∷ cs ↦ ok (c ∷ []) ];
  unmarshal = λ c. ok c;
}

-- Blocks up to 1000 exist; the block near any time is block 100.
abbrev pub found_block : (seqno mode w : ℕ) → Outcome (BlockIdExt × ℕ) × ℕ
found_block seqno mode w =
    if mode == 4
    then (ok (block 100, 100), w + 1)
    else if leb seqno 1000
    then (ok (block seqno, seqno), w + 1)
    else (err (codes "block not found"), w + 1)

abbrev pub net : LoaderClient tongo ℕ
net = record {
  lookup_block = λ id mode utime s.
      let (r, w) = found_block id.seqno mode s.world in (r, record s { world = w });
  get_config_params = λ ext mode params w. elim ext [
    | none ↦ (err (codes "no block"), w + 1)
    | some b ↦ (ok b.seqno, w + 1)
  ];
}

abbrev pub first_result : {V : Type 0} → List (Result V) → Outcome V
first_result [] = panic
first_result (loaded v ∷ rs) = ok v
first_result (skip_cache e ∷ rs) = err e

abbrev pub uncached : {S K V : Type 0} → Dataloader S K V
uncached = record { load = λ batch key. batch (key ∷ []) >>= λ rs. lift (first_result rs) }

pub uncached-LoadsByBatch :
    {S K V : Type 0} (P : S → Type 0) → LoadsByBatch P (uncached {S = S} {K = K} {V = V})
uncached-LoadsByBatch P batch keeps key = Keeps-bind _ _ (keeps (key ∷ [])) λ rs. Keeps-lift _

abbrev pub data_loaders : DataLoaders tongo ℕ
data_loaders = record {
  client = net;
  block_by_utime = uncached;
  block_by_seqno = uncached;
  config_params = uncached;
}

pub encoding-IsEncoding : IsEncoding encoding
encoding-IsEncoding = record {
  json = λ list. refl;
  empty = (codes "invalid magic prefix", refl);
  boc = λ params c text made written.
      (c, [], rw (← ok_injective written) refl, ap ok (sym (ok_injective made)));
}

found_block-seqno : (n w : ℕ) → Ensures (λ found. found.0.seqno ≡ n) (found_block n 1 w)
found_block-seqno n w = elim (Bool-cases (leb n 1000)) [ inl e ↦ rw (e) refl | inr e ↦ rw (e) tt ]

pub net-IsHonest : IsHonest (λ n. n) net
net-IsHonest = record {
  seqno = λ n s.
      Ensures-in (λ found. found.0.seqno ≡ n) (λ w. record s { world = w })
        (found_block n 1 s.world) (found_block-seqno n s.world);
  utime = λ u s. omega arith;
  config = λ ext w. refl;
}

first_result-Answers :
    {S K V : Type 0} (Q : K → V → Type 0) (key : K) (rs : List (Result V)) (s : S)
    → Answers Q (key ∷ []) rs
    → Ensures (Q key) (first_result rs, s)
first_result-Answers Q key [] s h = tt
first_result-Answers Q key (loaded v ∷ rs) s h = h.0
first_result-Answers Q key (skip_cache e ∷ rs) s h = tt

pub uncached-GivesBatched :
    {S K V : Type 0} (batch : List K → Action S (List (Result V))) → GivesBatched uncached batch
uncached-GivesBatched batch Q answers key s =
    continue-Ensures (Answers Q (key ∷ [])) (Q key) (batch (key ∷ []) s) _ (answers (key ∷ []) s)
      λ rs s' h. first_result-Answers Q key rs s' h

-- ===== src/Loaders/Honest.antt =====
-- What the loaders rely on: a network that answers from one chain, an encoding that can be decoded, and
-- dataloaders that give what their batches gave.
use ton_validators_rewards_a.Base.{ℕ, ◌<◌, ◌^◌, ◌≡◌, ⊤, none, some, List, [], ◌∷◌}
use ton_validators_rewards_a.Base.Text.{Text}
use ton_validators_rewards_a.Outcome.{Error, ok, err, Action, Ensures}
use ton_validators_rewards_a.Tlb.{Tongo, BlockIdExt}
use ton_validators_rewards_a.Retry.{Session}
use ton_validators_rewards_a.Loaders.{
  Result, loaded, skip_cache, Dataloader, Encoding, LoaderClient, masterchain,
}

-- What a liteserver answers: a block of the seqno that is asked for, one of 32 bits by a time, and the
-- params of the chain at a block.
pub record IsHonest {t : Tongo} {W : Type 0} (params_at : ℕ → t.ConfigParams) (c : LoaderClient t W)
    : Type 0 where
  pub seqno :
      (n : ℕ) (s : Session W)
      → Ensures (λ found. found.0.seqno ≡ n) (c.lookup_block (masterchain n) 1 none s)
  pub utime :
      (u : ℕ) (s : Session W)
      → Ensures (λ found. found.0.seqno < 2 ^ 32) (c.lookup_block (masterchain 0) 4 (some u) s)
  pub config :
      (ext : BlockIdExt) (w : W)
      → Ensures
          (λ params. params ≡ params_at ext.seqno)
          (c.get_config_params (some ext) 0 (34 ∷ []) w)

-- What is encoded can be decoded, and is what it was; an empty text is no bag of cells.
pub record IsEncoding {t : Tongo} (enc : Encoding t) : Type 0 where
  pub json : (list : List ℕ) → enc.json_unmarshal (enc.json_marshal list) ≡ ok list
  pub empty : (e : Error) × (enc.deserialize_boc [] ≡ err e)
  pub boc :
      (params : t.ConfigParams) (c : t.Cell) (text : Text)
      → enc.marshal params ≡ ok c
      → enc.to_boc c ≡ ok text
      → (root : t.Cell) × (rest : List t.Cell) × (enc.deserialize_boc text ≡ ok (root ∷ rest))
        × (enc.unmarshal root ≡ ok params)

-- One result for each key, and each value is one for its key.
abbrev pub Answers : {K V : Type 0} → (K → V → Type 0) → List K → List (Result V) → Type 0
Answers Q [] [] = ⊤
Answers Q [] (r ∷ rs) = ⊥
Answers Q (k ∷ ks) [] = ⊥
Answers Q (k ∷ ks) (loaded v ∷ rs) = Q k v × Answers Q ks rs
Answers Q (k ∷ ks) (skip_cache e ∷ rs) = Answers Q ks rs

-- What a dataloader with a batch function gives for a key, now or from its cache, is what this function
-- gives for it in some state. The cache is a part of the state, of which only worlds are considered in
-- which it holds such values.
abbrev pub GivesBatched :
    {S K V : Type 0} → Dataloader S K V → (List K → Action S (List (Result V))) → Type 1
GivesBatched {S} {K} {V} dl batch =
    (Q : K → V → Type 0)
    → ((keys : List K) (s : S) → Ensures (Answers Q keys) (batch keys s))
    → (key : K) (s : S) → Ensures (Q key) (dl.load batch key s)

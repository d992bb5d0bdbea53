-- ===== src/Node/AuthorityKeys.antt =====
-- The key that the worker of an authority makes is the one that node/src/chain_spec.rs lists.
use clamor.Fragments.Types as Fragments
use clamor.Exec.{ok}
use clamor.Node.ChainSpec.{
  Pairs, AuthorityKeys, get_from_seed, get_from_seed_to_eth, authority_keys_from_seed,
  testnet_genesis,
}
use clamor.Node.Genesis.{genesis_storage, genesis_storage-total}
use clamor.Detach.Generation.{
  KeyMaker, Ring, generate_seed_from_ed_key, get_keys_set_from_local_storage, Made, generate_each,
  begin, generate_keys,
}
use clamor.Detach.Worker.{find_authority}
use clamor.Detach.Types.{chain_eq}
use clamor.Base.{
  ℕ, ◌≡◌, sym, subst, ◌∙◌, inl, inr, true, false, some, List, [], ◌∷◌, ◌++◌, map, arith, Bool-cases,
  Option-cases, is_some, ◌==◌, ==_iff, ==_refl, contains, nat_eq, bytes_eq, pair_eq,
}
use clamor.Host.{Bytes, AccountId, ascii, be_bytes, Host}

-- What the worker's keystore does: it signs as the pair of the seed phrase does, and
-- `ecdsa_generate` adds the key of the bytes that its seed writes in hexadecimal, and drops none.
pub record HoldsSeed (p : Pairs) (g : KeyMaker) (seed : Bytes) (ed_key : ℕ) : Type 0 where
  pub listed : contains g.ed25519_public_keys ed_key ≡ true
  pub signs :
      (message : Bytes)
      → g.ed25519_sign ed_key message ≡ some (p.ed25519_sign (ascii "//" ++ seed) message)
  pub generates :
      (bytes : Bytes) (k : ℕ) (made : List ℕ)
      → p.ecdsa_from_seed_slice bytes ≡ some k
      → contains (g.ecdsa_generate (ascii "0x" ++ g.hex_text bytes) made) k ≡ true
  pub keeps :
      (text : Bytes) (k : ℕ) (made : List ℕ)
      → contains made k ≡ true
      → contains (g.ecdsa_generate text made) k ≡ true

module _ (h : Host) (p : Pairs) (seed : Bytes) (keys : AuthorityKeys) where
  -- the bytes that the key of an authority is made from
  abbrev eth_seed : Bytes
  eth_seed = be_bytes 32 (
      h.keccak_256 (
        p.ed25519_sign (ascii "//" ++ seed)
          (ascii "fragments-frag-ecdsa-keys" ++ be_bytes 32 keys.detach_id)))

  get_from_seed_to_eth-key :
      (public eth : ℕ)
      → p.ed25519_from_string (ascii "//" ++ seed) ≡ some public
      → get_from_seed_to_eth h p seed tt ≡ (ok eth, tt)
      → p.ecdsa_from_seed_slice (
          be_bytes 32 (
            h.keccak_256 (
              p.ed25519_sign
                (ascii "//" ++ seed)
                (ascii "fragments-frag-ecdsa-keys" ++ be_bytes 32 public))))
        ≡ some eth
  unfolding get_from_seed_to_eth
  get_from_seed_to_eth-key public eth e q = ground (arith, e, q)

  authority-keys :
      authority_keys_from_seed h p seed tt ≡ (ok keys, tt)
      → (p.ed25519_from_string (ascii "//" ++ seed) ≡ some keys.detach_id)
        × (get_from_seed_to_eth h p seed tt ≡ (ok keys.eth_id, tt))
  unfolding authority_keys_from_seed get_from_seed
  authority-keys e = (ground (arith, e), ground (arith, e))

module _ (h : Host) (g : KeyMaker) where
  seed_of :
      (p : Pairs) (seed : Bytes) (keys : AuthorityKeys)
      → HoldsSeed p g seed keys.detach_id
      → generate_seed_from_ed_key h g keys.detach_id
        ≡ some (ascii "0x" ++ g.hex_text (eth_seed h p seed keys))
  unfolding generate_seed_from_ed_key
  seed_of p seed keys v =
      ground (arith, v.signs (ascii "fragments-frag-ecdsa-keys" ++ be_bytes 32 keys.detach_id))

  generate_each-keeps :
      (k : ℕ) (eds : List ℕ) (m : Made)
      → ((text : Bytes) (made : List ℕ)
          → contains made k ≡ true
          → contains (g.ecdsa_generate text made) k ≡ true)
      → contains m.ecdsa k ≡ true
      → contains (generate_each h g eds m).ecdsa k ≡ true
  unfolding generate_each
  generate_each-keeps k [] m keeps e = e
  generate_each-keeps k (j ∷ eds) m keeps e = elim (Bool-cases (contains m.known j)) [
    | inl known ↦ ground (arith, known, generate_each-keeps k eds m keeps e)
    | inr new ↦ elim (Option-cases (generate_seed_from_ed_key h g j)) [
      | inl failed ↦ ground (arith, new, failed, e)
      | inr (text, made) ↦
          let next : Made = record m {
            known = j ∷ m.known;
            edited = true;
            ecdsa = g.ecdsa_generate text m.ecdsa;
          } in
          ground (arith, new, made, generate_each-keeps k eds next keeps (keeps text m.ecdsa e))
    ]
  ]

  generate_each-makes :
      (ed k : ℕ) (text : Bytes) (eds : List ℕ) (m : Made)
      → generate_seed_from_ed_key h g ed ≡ some text
      → ((made : List ℕ) → contains (g.ecdsa_generate text made) k ≡ true)
      → ((other : Bytes) (made : List ℕ)
          → contains made k ≡ true
          → contains (g.ecdsa_generate other made) k ≡ true)
      → contains eds ed ≡ true
      → contains m.known ed ≡ false
      → (generate_each h g eds m).fine ≡ true
      → contains (generate_each h g eds m).ecdsa k ≡ true
  unfolding generate_each
  generate_each-makes ed k text [] m e makes keeps there new fine = absurd (ground (arith, there))
  generate_each-makes ed k text (j ∷ eds) m e makes keeps there new fine =
      elim (Bool-cases (contains m.known j)) [
        | inl known ↦
            let here : generate_each h g (j ∷ eds) m ≡ generate_each h g eds m =
              ground (arith, known) in
            subst (λ (t : Made). contains t.ecdsa k ≡ true) (sym here)
              (generate_each-makes ed k text eds m e makes keeps
                (ground (arith, there, known, new, ==_iff j ed)) new (ground (arith, here, fine)))
        | inr fresh ↦ elim (Option-cases (generate_seed_from_ed_key h g j)) [
          | inl failed ↦ absurd (ground (arith, fine, fresh, failed))
          | inr (other, made) ↦
              let next : Made = record m {
                known = j ∷ m.known;
                edited = true;
                ecdsa = g.ecdsa_generate other m.ecdsa;
              } in
              let here : generate_each h g (j ∷ eds) m ≡ generate_each h g eds next =
                ground (arith, fresh, made) in
              subst (λ (t : Made). contains t.ecdsa k ≡ true) (sym here)
                (elim (Bool-cases (j == ed)) [
                  | inl same ↦
                      let text_same : other ≡ text = ground (arith, same, ==_iff j ed, made, e) in
                      generate_each-keeps k eds next keeps (
                        subst (λ t. contains (g.ecdsa_generate t m.ecdsa) k ≡ true) (sym text_same)
                          (makes m.ecdsa))
                  | inr differs ↦
                      generate_each-makes ed k text eds next e makes keeps
                        (ground (arith, there, differs)) (ground (arith, new, differs))
                        (ground (arith, here, fine))
                ])
        ]
      ]

-- a key of the first list that is in the second one is found, or another one is
find_authority-found :
    (authorities ks : List ℕ) (k : ℕ)
    → contains authorities k ≡ true
    → contains ks k ≡ true
    → is_some (find_authority authorities ks) ≡ true
find_authority-found authorities [] k a b = absurd (ground (arith, b))
find_authority-found authorities (j ∷ ks) k a b =
    ground (arith, a, b, ==_iff j k, find_authority-found authorities ks k a)

contains-map :
    {A : Type 0} (f : A → ℕ) (xs : List A) (x : A) (ys : List A)
    → contains (map f (xs ++ x ∷ ys)) (f x) ≡ true
contains-map f [] x ys = ground (arith, ==_refl (f x))
contains-map f (z ∷ xs) x ys = ground (arith, contains-map f xs x ys)

-- At the genesis of a test network, an authority's worker that holds the key of its seed phrase, has
-- made no key from it yet and makes its keys without a panic has the ECDSA key that the
-- specification lists as its Ethereum authority, so that it finds a key to sign requests with.
pub find_authority-genesis :
    {L : Type 0} (h : Host) (p : Pairs) (g : KeyMaker) (seed code : Bytes) (keys : AuthorityKeys)
    (before after : List AuthorityKeys) (root_key : AccountId) (endowed : List AccountId) (n : Ring)
    (l : L) (c : Fragments.Chain L)
    → authority_keys_from_seed h p seed tt ≡ (ok keys, tt)
    → HoldsSeed p g seed keys.detach_id
    → contains (get_keys_set_from_local_storage n.stored_keys) keys.detach_id ≡ false
    → (generate_keys h g n).0 ≡ true
    → genesis_storage (testnet_genesis code (before ++ keys ∷ after) root_key endowed) l ≡ some c
    → (contains (generate_keys h g n).1.ecdsa_keys keys.eth_id ≡ true)
      × (contains c.base.detach.ethereum_authorities keys.eth_id ≡ true)
      × (is_some
            (find_authority c.base.detach.ethereum_authorities (generate_keys h g n).1.ecdsa_keys)
          ≡ true)
unfolding generate_keys testnet_genesis
find_authority-genesis h p g seed code keys before after root_key endowed n l c made holds new fine
      start =
    let (public, eth) = authority-keys h p seed keys made in
    let key = get_from_seed_to_eth-key h p seed keys keys.detach_id keys.eth_id public eth in
    let text = ascii "0x" ++ g.hex_text (eth_seed h p seed keys) in
    let config = testnet_genesis code (before ++ keys ∷ after) root_key endowed in
    let (d, built, starts) = genesis_storage-total config l in
    let same : d ≡ c = ground (arith, built, start) in
    let in_ring : contains (generate_keys h g n).1.ecdsa_keys keys.eth_id ≡ true =
      generate_each-makes h g keys.detach_id keys.eth_id text g.ed25519_public_keys (begin n)
        (seed_of h g p seed keys holds) (λ ks. holds.generates _ keys.eth_id ks key)
        (λ other ks. holds.keeps other keys.eth_id ks) holds.listed new fine in
    let listed : contains c.base.detach.ethereum_authorities keys.eth_id ≡ true =
      subst
        (λ (b : Fragments.Chain _). contains b.base.detach.ethereum_authorities keys.eth_id ≡ true)
        same
        (starts.eth_authorities keys.eth_id
          ∙ contains-map (λ (x : AuthorityKeys). x.eth_id) before keys after) in
    (
      in_ring,
      listed,
      find_authority-found c.base.detach.ethereum_authorities _ keys.eth_id listed in_ring,
    )

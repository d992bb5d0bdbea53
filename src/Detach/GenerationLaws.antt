-- ===== src/Detach/GenerationLaws.antt =====
-- The keys of the off-chain worker are made once for a whole batch.
use clamor.Detach.Types.{DetachRequest, State, chain_eq}
use clamor.Detach.Worker.{Keystore, process_batch, process_detach_requests}
use clamor.Detach.Generation.{
  KeyMaker, Ring, generate_seed_from_ed_key, Made, generate_each, begin, generate_keys, with_keys,
  work_batch, offchain_worker,
}
use clamor.Base.{
  ℕ, ◌≡◌, refl, sym, subst, inl, inr, true, false, some, List, [], ◌∷◌, arith, if◌then◌else◌,
  Bool-cases, Option-cases, ==_iff, ==_refl, contains, nat_eq, bytes_eq, pair_eq,
}
use clamor.Host.{Host}

-- A loop that ends well knows every key that it was given or knew, and if none was added the set is
-- the same.
record Fulfils (eds : List ℕ) (m t : Made) : Type 0 where
  covered : (e : ℕ) → contains eds e ≡ true → contains t.known e ≡ true
  kept : (e : ℕ) → contains m.known e ≡ true → contains t.known e ≡ true
  untouched : t.edited ≡ false → (m.edited ≡ false) × (t.known ≡ m.known)

Fulfils-known :
    (j : ℕ) (eds : List ℕ) (m t : Made)
    → contains m.known j ≡ true
    → Fulfils eds m t
    → Fulfils (j ∷ eds) m t
Fulfils-known j eds m t p v = record {
  covered = λ e q. ground (arith, q, p, v.covered e, v.kept e, ==_iff j e);
  kept = v.kept;
  untouched = v.untouched;
}

Fulfils-new :
    (j : ℕ) (eds ecdsa : List ℕ) (m t : Made)
    → Fulfils eds (record m { known = j ∷ m.known; edited = true; ecdsa = ecdsa }) t
    → Fulfils (j ∷ eds) m t
Fulfils-new j eds ecdsa m t v = record {
  covered = λ e q. ground (arith, q, v.covered e, v.kept e);
  kept = λ e q. ground (arith, q, v.kept e);
  untouched = λ q. absurd (ground (arith, v.untouched q));
}

generate_each-Fulfils :
    (h : Host) (g : KeyMaker) (eds : List ℕ) (m : Made)
    → (generate_each h g eds m).fine ≡ true
    → Fulfils eds m (generate_each h g eds m)
unfolding generate_each
generate_each-Fulfils h g [] m fine = record {
  covered = λ e p. absurd (ground (arith, p));
  kept = λ e p. p;
  untouched = λ p. (p, refl);
}
generate_each-Fulfils h g (j ∷ eds) m fine = elim (Bool-cases (contains m.known j)) [
  | inl p ↦
      let here : generate_each h g (j ∷ eds) m ≡ generate_each h g eds m = ground (arith, p) in
      subst (Fulfils (j ∷ eds) m) (sym here)
        (Fulfils-known j eds m _ p (generate_each-Fulfils h g eds m (ground (arith, here, fine))))
  | inr p ↦ elim (Option-cases (generate_seed_from_ed_key h g j)) [
    | inl q ↦ absurd (ground (arith, fine, p, q))
    | inr (seed, q) ↦
        let ecdsa = g.ecdsa_generate seed m.ecdsa in
        let next : Made = record m { known = j ∷ m.known; edited = true; ecdsa = ecdsa } in
        let here : generate_each h g (j ∷ eds) m ≡ generate_each h g eds next =
          ground (arith, p, q) in
        subst (Fulfils (j ∷ eds) m) (sym here) (
          Fulfils-new j eds ecdsa m _
            (generate_each-Fulfils h g eds next (ground (arith, here, fine))))
  ]
]

-- a loop over known keys does nothing
generate_each-known :
    (h : Host) (g : KeyMaker) (eds : List ℕ) (m : Made)
    → ((e : ℕ) → contains eds e ≡ true → contains m.known e ≡ true)
    → generate_each h g eds m ≡ m
unfolding generate_each
generate_each-known h g [] m w = refl
generate_each-known h g (j ∷ eds) m w =
    ground (arith, w j, ==_refl j, generate_each-known h g eds m (λ e p. w e (ground (arith, p))))

-- once keys are made, they are not made again
generate_keys-twice :
    (h : Host) (g : KeyMaker) (n : Ring)
    → (generate_keys h g n).0 ≡ true
    → generate_keys h g (generate_keys h g n).1 ≡ (true, (generate_keys h g n).1)
unfolding generate_keys
generate_keys-twice h g n fine =
    let eds = g.ed25519_public_keys in
    let v = generate_each-Fulfils h g eds (begin n) fine in
    let again = generate_each-known h g eds (begin (generate_keys h g n).1) in
    ground (arith, fine, v.untouched, v.covered, again)

work_batch-settled :
    (h : Host) (g : KeyMaker) (k : Keystore) (s : State) (rs : List DetachRequest) (n : Ring)
    → generate_keys h g n ≡ (true, n)
    → let (out, done) = process_batch h (with_keys k n) s rs in
      work_batch h g k s rs n ≡ (out, done, n)
unfolding work_batch process_batch
work_batch-settled h g k s [] n settled = refl
work_batch-settled h g k s (r ∷ rs) n settled =
    ground (arith, work_batch-settled h g k s rs n settled, settled)

-- Making keys before each request of a batch comes to making them once.
work_batch-once :
    (h : Host) (g : KeyMaker) (k : Keystore) (s : State) (r : DetachRequest)
    (rs : List DetachRequest) (n : Ring)
    → let (fine, m) = generate_keys h g n in
      let (out, done) = process_batch h (with_keys k m) s (r ∷ rs) in
      work_batch h g k s (r ∷ rs) n ≡ (if fine then (out, done, m) else ([], false, m))
unfolding work_batch process_batch
work_batch-once h g k s r rs n =
    ground (arith, generate_keys-twice h g n, work_batch-settled h g k s rs (generate_keys h g n).1)

-- Where the stored batch is not empty, the worker does what it does with the keys that it has after
-- it has made keys once: if that does not panic, it sends what the batch comes to with those keys;
-- if it does, it sends nothing and the batch stays.
pub offchain_worker-once :
    (h : Host) (g : KeyMaker) (k : Keystore) (s : State) (n : Ring) (r : DetachRequest)
    (rs : List DetachRequest)
    → s.offchain_requests ≡ some (r ∷ rs)
    → let (fine, m) = generate_keys h g n in
      let (out, t) = process_detach_requests h (with_keys k m) s in
      offchain_worker h g k s n ≡ (if fine then (out, t, m) else ([], s, m))
unfolding offchain_worker process_detach_requests
offchain_worker-once h g k s n r rs e = ground (arith, e, work_batch-once h g k s r rs n)

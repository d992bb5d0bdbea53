-- ===== src/Runtime/Marks.antt =====
-- What is marked as detached was marked by an authority.
use clamor.Protos.Types as Protos
use clamor.Protos.Stakes as ProtosEnd
use clamor.Detach.Types as Detached
use clamor.Detach.Calls as Detach
use clamor.Exec.{Origin, root, none_origin, signed, in_block, valid}
use clamor.Runtime.Calls.{
  AccountsCall, internal_lock_update_call, DetachCall, add_eth_auth_call, del_eth_auth_call,
  add_worker_key_call, del_worker_key_call, internal_finalize_detach_call, RuntimeCall, protos_call,
  fragments_call, detach_call, accounts_call, World, dispatch_detach, dispatch,
}
use clamor.Runtime.Steps.{
  called, lock_updated, detach_finalized, overridden, protos_finalized, fragments_finalized,
  detach_finished, worked, elsewhere, Reach, here, next,
}
use clamor.Runtime.Parts.{protos-SameOthers, fragments-base}
use clamor.Detach.Types.{DetachInternalData, ExportData, State, chain_eq}
use clamor.Detach.Validation.{finalize_detach, DetachTag, validate_unsigned}
use clamor.Detach.Generation.{KeyMaker, Ring, offchain_worker}
use clamor.Detach.Worker.{Keystore}
use clamor.Fragments.Types.{Chain}
use clamor.Base.{
  ℕ, ◌≡◌, refl, ap, ◌≢◌, inl, inr, true, false, Option, none, some, arith, if◌then◌else◌,
  Bool-cases, Option-cases, ◌==◌, ==_iff, contains, nat_eq, bytes_eq, pair_eq,
}
use clamor.Host.{Hash256, Host, System}

-- The steps of the pallet `detach` that mark nothing.
dispatch_detach-unmarked :
    (o : Origin) (x : DetachCall) (s : Detached.State)
    → o ≢ none_origin
    → (dispatch_detach o x s).detached_hashes ≡ s.detached_hashes
unfolding dispatch_detach Detach.add_eth_auth Detach.del_eth_auth Detach.add_key Detach.del_key
    Detach.internal_finalize_detach
dispatch_detach-unmarked root (add_eth_auth_call k) s n = refl
dispatch_detach-unmarked root (del_eth_auth_call k) s n = refl
dispatch_detach-unmarked root (add_worker_key_call k) s n = refl
dispatch_detach-unmarked root (del_worker_key_call k) s n = refl
dispatch_detach-unmarked root (internal_finalize_detach_call d) s n = refl
dispatch_detach-unmarked (signed a) (add_eth_auth_call k) s n = refl
dispatch_detach-unmarked (signed a) (del_eth_auth_call k) s n = refl
dispatch_detach-unmarked (signed a) (add_worker_key_call k) s n = refl
dispatch_detach-unmarked (signed a) (del_worker_key_call k) s n = refl
dispatch_detach-unmarked (signed a) (internal_finalize_detach_call d) s n = refl
dispatch_detach-unmarked none_origin x s n = absurd (n refl)

pub on_finalize-unmarked :
    (s : Detached.State) → (Detach.on_finalize s).detached_hashes ≡ s.detached_hashes
unfolding Detach.on_finalize
on_finalize-unmarked s = ground arith

pub offchain_worker-unmarked :
    (h : Host) (g : KeyMaker) (k : Keystore) (s : Detached.State) (n : Ring)
    → (offchain_worker h g k s n).1.detached_hashes ≡ s.detached_hashes
unfolding offchain_worker
offchain_worker-unmarked h g k s n = ground arith

protos_end-unmarked :
    (b : Protos.Chain) → (ProtosEnd.on_finalize b).detach.detached_hashes ≡ b.detach.detached_hashes
unfolding ProtosEnd.on_finalize
protos_end-unmarked b = refl

-- An authority's signed payload marked `k` with the entry `e` in a chain that was reached from `c`.
pub record Finalization {L : Type 0} (w : World L) (c : Chain L) (k : Hash256) (e : ExportData)
    : Type 0 where
  pub before : Chain L
  pub reached : Reach w false c before
  pub payload : DetachInternalData
  pub signature : ℕ
  pub key : ℕ
  pub hash : payload.hash ≡ k
  pub entry : e ≡ record {
    chain = payload.target_chain;
    owner = payload.target_account;
    nonce = payload.nonce;
  }
  pub public : w.detach_checks.ed25519_key payload.public ≡ some key
  pub authority : contains before.base.detach.frag_keys key ≡ true
  pub checked : w.detach_checks.is_signed payload signature ≡ true

module _ {L : Type 0} (w : World L) where
  abbrev marks : Chain L → Hash256 → Option ExportData
  marks c = c.base.detach.detached_hashes

  called-unmarked :
      (sys : System) (now : ℕ) (o : Origin) (x : RuntimeCall) (c : Chain L)
      → o ≢ none_origin
      → marks (dispatch w sys now o x c) ≡ marks c
  unfolding dispatch
  called-unmarked sys now o (protos_call x) c n = (protos-SameOthers w.host sys o x c.base).1
  called-unmarked sys now o (fragments_call x) c n =
      ap (λ (b : Protos.Chain). b.detach.detached_hashes)
        (fragments-base w.host sys w.outside o x c)
  called-unmarked sys now o (detach_call x) c n = dispatch_detach-unmarked o x c.base.detach n
  called-unmarked sys now o (accounts_call x) c n = refl

  accounts-unmarked :
      (sys : System) (now : ℕ) (o : Origin) (x : AccountsCall) (c : Chain L)
      → marks (dispatch w sys now o (accounts_call x) c) ≡ marks c
  unfolding dispatch
  accounts-unmarked sys now o x c = refl

  finalized-mark :
      (sys : System) (now : ℕ) (d : DetachInternalData) (c : Chain L) (k : Hash256)
      → marks (dispatch w sys now none_origin (detach_call (internal_finalize_detach_call d)) c) k
        ≡ (if d.hash == k
            then some (record { chain = d.target_chain; owner = d.target_account; nonce = d.nonce })
            else marks c k)
  unfolding dispatch dispatch_detach Detach.internal_finalize_detach
  finalized-mark sys now d c k = refl

  valid-key :
      (s : Detached.State) (d : DetachInternalData) (signature : ℕ) (tag : DetachTag)
      → validate_unsigned w.detach_checks s in_block (finalize_detach d signature) ≡ valid tag
      → (key : ℕ) × (w.detach_checks.ed25519_key d.public ≡ some key)
        × (contains s.frag_keys key ≡ true)
        × (w.detach_checks.is_signed d signature ≡ true)
  unfolding validate_unsigned
  valid-key s d signature tag e = elim (Option-cases (w.detach_checks.ed25519_key d.public)) [
    | inl missing ↦ absurd (ground (arith, e, missing))
    | inr (key, there) ↦ (key, there, ground (arith, e, there), ground (arith, e, there))
  ]

  -- In a chain that starts without a mark on a Proto-Fragment, and in which calls without an origin
  -- are checked, it is marked as detached only with the chain, account and nonce of a payload that a
  -- key of the pallet's FragKeys at that time has signed.
  pub Reach-Finalization :
      (c d : Chain L) (k : Hash256) (e : ExportData)
      → c.base.detach.detached_hashes k ≡ none
      → Reach w false c d
      → d.base.detach.detached_hashes k ≡ some e
      → Finalization w c k e
  Reach-Finalization c _ k e n here p = absurd (ground (arith, n, p))
  Reach-Finalization c _ k e n (next r (called sys now o x t q)) p =
      Reach-Finalization c t k e n r (rw (called-unmarked sys now o x t q) at p)
  Reach-Finalization c _ k e n (next r (lock_updated sys now d signature tag t q)) p =
      Reach-Finalization c t k e n r
        (rw (accounts-unmarked sys now none_origin (internal_lock_update_call d) t) at p)
  Reach-Finalization c _ k e n (next r (detach_finalized sys now d signature tag t q)) p =
      elim (Bool-cases (d.hash == k)) [
        | inl same ↦
            let (key, public, listed, fine) = valid-key t.base.detach d signature tag q in
            record {
              before = t;
              reached = r;
              payload = d;
              signature = signature;
              key = key;
              hash = ground (arith, ==_iff d.hash k, same);
              entry = ground (arith, finalized-mark sys now d t k, same, p);
              public = public;
              authority = listed;
              checked = fine;
            }
        | inr other ↦
            Reach-Finalization c t k e n r (ground (arith, finalized-mark sys now d t k, other, p))
      ]
  Reach-Finalization c _ k e n (next r (overridden sys now x t u)) p = absurd (ground (arith, u))
  Reach-Finalization c _ k e n (next r (protos_finalized t)) p =
      Reach-Finalization c t k e n r (rw (protos_end-unmarked t.base) at p)
  Reach-Finalization c _ k e n (next r (fragments_finalized b t)) p =
      Reach-Finalization c t k e n r p
  Reach-Finalization c _ k e n (next r (detach_finished t)) p =
      Reach-Finalization c t k e n r (rw (on_finalize-unmarked t.base.detach) at p)
  Reach-Finalization c _ k e n (next r (worked g s ring t)) p =
      Reach-Finalization c t k e n r
        (rw (offchain_worker-unmarked w.host g s t.base.detach ring) at p)
  Reach-Finalization c _ k e n (next r (elsewhere l t)) p = Reach-Finalization c t k e n r p

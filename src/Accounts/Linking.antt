-- ===== src/Accounts/Linking.antt =====
-- The links: only `link` makes one, for the caller and the address that the signature recovers to.
use clamor.Exec.{Origin, root, none_origin, signed, ◌>>=◌, modify, bind-keeps}
use clamor.Accounts.Calls.{deposit_event, eth_address, link_message, link, unlink_account, unlink}
use clamor.Accounts.Voting.{
  lock_hash, verify, count_vote, slash, slash_linked, unlink_linked, settle, record_lock,
  apply_update, internal_lock_update,
}
use clamor.Accounts.Links.{verify-state, count_vote-SameLinks}
use clamor.Accounts.Types.{EthLockUpdate, State, external_id_eq}
use clamor.Base.{
  ℕ, ◌≡◌, ap, subst, ◌⊎◌, inl, inr, Bool, true, false, ◌||◌, some, arith, Bool-cases, Option-cases,
  is_some, ◌==◌, ==_iff, nat_eq, bytes_eq, pair_eq,
}
use clamor.Host.{Bytes, AccountId, H160, Host, System}

-- `t` links the account only as `s` does
abbrev pub NoNewLink : AccountId → H160 → State → State → Type 0
NoNewLink a e s t = t.evm_links a ≡ some e → s.evm_links a ≡ some e

made :
    (h : Host) (b : AccountId) (signature : ℕ) (s : State) (a : AccountId) (e : H160) (key : Bytes)
    → h.ecdsa_recover signature (h.keccak_256 (link_message h b)) ≡ some key
    → b ≡ a
    → (link h (signed b) signature s).1.evm_links a ≡ some e
    → (s.evm_links a ≡ some e)
      ⊎ ((k : Bytes) × (signed b ≡ signed a)
          × (h.ecdsa_recover signature (h.keccak_256 (link_message h a)) ≡ some k)
          × (eth_address h k ≡ e))
unfolding link
made h b signature s a e key r same p =
    elim (Bool-cases
      (is_some (s.evm_links b) || is_some (s.evm_links_reverse (eth_address h key)))) [
        | inl refused ↦ inl (ground (arith, p, r, refused))
        | inr free ↦ inr (
          key,
          ap signed same,
          subst (λ c. h.ecdsa_recover signature (h.keccak_256 (link_message h c)) ≡ some key) same
              r,
          ground (arith, p, r, free, same, ==_iff b a),
        )
      ]

pub link-new :
    (h : Host) (o : Origin) (signature : ℕ) (s : State) (a : AccountId) (e : H160)
    → (link h o signature s).1.evm_links a ≡ some e
    → (s.evm_links a ≡ some e)
      ⊎ ((key : Bytes) × (o ≡ signed a)
          × (h.ecdsa_recover signature (h.keccak_256 (link_message h a)) ≡ some key)
          × (eth_address h key ≡ e))
unfolding link
link-new h root signature s a e p = inl p
link-new h none_origin signature s a e p = inl p
link-new h (signed b) signature s a e p =
    elim (Option-cases (h.ecdsa_recover signature (h.keccak_256 (link_message h b)))) [
      | inl r ↦ inl (ground (arith, p, r))
      | inr (key, r) ↦ elim (Bool-cases (b == a)) [
        | inl same ↦ made h b signature s a e key r (ground (arith, ==_iff b a, same)) p
        | inr other ↦ inl (ground (arith, p, r, other))
      ]
    ]

unlink_account-NoNewLink :
    (b : AccountId) (f : H160) (a : AccountId) (e : H160) (s : State)
    → NoNewLink a e s (unlink_account b f s).1
unfolding unlink_account
unlink_account-NoNewLink b f a e s p = ground (arith, p)

pub unlink-NoNewLink :
    (o : Origin) (f : H160) (a : AccountId) (e : H160) (s : State)
    → NoNewLink a e s (unlink o f s).1
unfolding unlink
unlink-NoNewLink root f a e s p = p
unlink-NoNewLink none_origin f a e s p = p
unlink-NoNewLink (signed b) f a e s p = unlink_account-NoNewLink b f a e s p

settle-NoNewLink :
    (d : EthLockUpdate) (a : AccountId) (e : H160) (s : State) → NoNewLink a e s (settle d s).1
unfolding settle slash_linked slash unlink_linked unlink_account deposit_event
settle-NoNewLink d a e s p = elim (Option-cases (s.evm_links_reverse d.sender)) [
  | inl q ↦ ground (arith, p, q)
  | inr (b, q) ↦ ground (arith, p, q)
]

apply_update-NoNewLink :
    (h : Host) (sys : System) (d : EthLockUpdate) (passed : Bool) (a : AccountId) (e : H160)
    (s t : State)
    → NoNewLink a e s t
    → NoNewLink a e s (apply_update h sys d passed t).1
unfolding apply_update record_lock
apply_update-NoNewLink h sys d false a e s t v = v
apply_update-NoNewLink h sys d true a e s t v =
    bind-keeps (NoNewLink a e s) (settle d) (λ _. modify (record_lock h sys d)) t
      (λ p. v (settle-NoNewLink d a e t p)) (λ _ u w p. w p)

pub internal_lock_update-NoNewLink :
    (h : Host) (sys : System) (o : Origin) (d : EthLockUpdate) (a : AccountId) (e : H160)
    (s : State)
    → NoNewLink a e s (internal_lock_update h sys o d s).1
unfolding internal_lock_update
internal_lock_update-NoNewLink h sys root d a e s = λ p. p
internal_lock_update-NoNewLink h sys (signed b) d a e s = λ p. p
internal_lock_update-NoNewLink h sys none_origin d a e s =
    bind-keeps (NoNewLink a e s) (verify h d)
      (λ _. count_vote h (lock_hash h d) >>= apply_update h sys d) s (rw verify-state (λ p. p))
      (λ _ t w.
        bind-keeps (NoNewLink a e s) (count_vote h (lock_hash h d)) (apply_update h sys d) t
          (λ p. w (rw (← (count_vote-SameLinks h (lock_hash h d) t).0) p))
          (λ passed u. apply_update-NoNewLink h sys d passed a e s u))

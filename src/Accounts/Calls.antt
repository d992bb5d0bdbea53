-- ===== src/Accounts/Calls.antt =====
-- pallets/accounts/src/lib.rs: keys, linking and unlinking.
use clamor.Exec.{
  Call, Origin, ensure, ok_or, gets, modify, ensure_signed, ensure_root, contains_key, insert,
  remove, ◌>>=◌, ◌>>◌, set_insert,
}
use clamor.Accounts.Types.{
  State, Event, Error, verification_failed, account_already_linked, account_not_linked,
  different_account_linked, linked, unlinked, external_id_eq,
}
use clamor.Base.{ℕ, not, ◌%◌, ◌^◌, [], ◌∷◌, ◌++◌, ◌==◌, without, nat_eq, bytes_eq, pair_eq}
use clamor.Host.{Host, AccountId, H160, Bytes, ascii, be_bytes}

unfoldable pub deposit_event : Event → Call State Error
deposit_event e = modify (λ s. record s { events = s.events ++ e ∷ [] })

unfoldable pub add_key : Origin → ℕ → Call State Error
add_key origin public = do
  ensure_root origin
  modify (λ s. record s { frag_keys = set_insert public s.frag_keys })

unfoldable pub del_key : Origin → ℕ → Call State Error
del_key origin public = do
  ensure_root origin
  modify (λ s. record s { frag_keys = without public s.frag_keys })

-- The address of a public key: the last 20 bytes of its hash.
unfoldable pub eth_address : Host → Bytes → H160
eth_address h key = h.keccak_256 key % 2 ^ 160

unfoldable pub link_message : Host → AccountId → Bytes
link_message h sender =
    ascii "EVM2Fragnova" ++ (be_bytes 8 h.eth_chain_id ++ h.encode_account sender)

unfoldable pub link : Host → Origin → ℕ → Call State Error
unfolding deposit_event
link h origin signature = do
  sender ← ensure_signed origin
  let message_hash = h.keccak_256 (link_message h sender)
  recovered ← ok_or (h.ecdsa_recover signature message_hash) verification_failed
  let eth_key = eth_address h recovered
  ensure (not (contains_key (← gets (λ s. s.evm_links)) sender)) account_already_linked
  ensure (not (contains_key (← gets (λ s. s.evm_links_reverse)) eth_key)) account_already_linked
  modify (λ s. record s { evm_links = insert s.evm_links sender eth_key })
  modify (λ s. record s { evm_links_reverse = insert s.evm_links_reverse eth_key sender })
  modify (λ s. record s { frag_usage = insert s.frag_usage sender 0 })
  deposit_event (linked sender eth_key)

unfoldable pub unlink_account : AccountId → H160 → Call State Error
unfolding deposit_event
unlink_account sender account = do
  linked_key ← ok_or (← gets (λ s. s.evm_links sender)) account_not_linked
  ensure (linked_key == account) different_account_linked
  linked_account ← ok_or (← gets (λ s. s.evm_links_reverse account)) account_not_linked
  ensure (linked_account == sender) different_account_linked
  modify (λ s. record s { evm_links = remove s.evm_links sender })
  modify (λ s. record s { evm_links_reverse = remove s.evm_links_reverse account })
  modify (λ s. record s { frag_usage = remove s.frag_usage sender })
  modify (λ s. record s { pending_unlinks = s.pending_unlinks ++ sender ∷ [] })
  deposit_event (unlinked sender account)

unfoldable pub unlink : Origin → H160 → Call State Error
unlink origin account = do sender ← ensure_signed origin; unlink_account sender account

-- ===== src/Runtime/Linking.antt =====
-- A link is made only with two signatures: the account's and that of the Ethereum key.
use clamor.Protos.Types as Protos
use clamor.Protos.Stakes as ProtosEnd
use clamor.Accounts.Types as AccountsTypes
use clamor.Accounts.Calls as Accounts
use clamor.Exec.{Origin, root, none_origin, signed}
use clamor.Runtime.Calls.{
  AccountsCall, link_call, unlink_call, sponsor_account_call, add_key_call, del_key_call,
  internal_lock_update_call, internal_finalize_detach_call, RuntimeCall, protos_call,
  fragments_call, detach_call, accounts_call, World, dispatch_accounts, dispatch,
}
use clamor.Runtime.Steps.{
  Step, called, lock_updated, detach_finalized, overridden, protos_finalized, fragments_finalized,
  detach_finished, worked, elsewhere, Reach, here, next,
}
use clamor.Runtime.Parts.{protos-SameOthers, fragments-base}
use clamor.Runtime.Owners.{signer}
use clamor.Accounts.Calls.{add_key, del_key, eth_address, link_message}
use clamor.Accounts.Linking.{link-new, unlink-NoNewLink, internal_lock_update-NoNewLink}
use clamor.Accounts.Sponsor.{Proxies, Sponsoring, sponsor_account}
use clamor.Accounts.Types.{ExternalId, State}
use clamor.Fragments.Types.{Chain}
use clamor.Base.{ℕ, ◌≡◌, refl, subst, ◌⊎◌, inl, inr, Bool, none, some, arith}
use clamor.Host.{Bytes, AccountId, H160, Host, System}

-- In a chain that was reached from `c`, the account signed a call whose signature recovers to the
-- address.
pub record Agreement {L : Type 0} (w : World L) (unchecked : Bool) (c : Chain L) (a : AccountId)
    (e : H160) : Type 0 where
  pub before : Chain L
  pub after : Chain L
  pub reached : Reach w unchecked c before
  pub step : Step w unchecked before after
  pub caller : signer w step ≡ some a
  pub signature : ℕ
  pub key : Bytes
  pub recovered :
      w.host.ecdsa_recover signature (w.host.keccak_256 (link_message w.host a)) ≡ some key
  pub address : eth_address w.host key ≡ e

-- a new link comes from a signed call
NewLink : {L : Type 0} → World L → Origin → AccountId → H160 → Type 0
NewLink w o a e =
    (signature : ℕ) × (key : Bytes) × (o ≡ signed a)
    × (w.host.ecdsa_recover signature (w.host.keccak_256 (link_message w.host a)) ≡ some key)
    × (eth_address w.host key ≡ e)

sponsor_account-links :
    {L : Type 0} (h : Host) (proxies : Proxies L) (now : ℕ) (o : Origin) (i : ExternalId)
    (c : Sponsoring L)
    → (sponsor_account h proxies now o i c).1.accounts.evm_links ≡ c.accounts.evm_links
unfolding sponsor_account
sponsor_account-links h proxies now o i c = ground arith

key-links :
    (o : Origin) (k : ℕ) (s : AccountsTypes.State)
    → ((Accounts.add_key o k s).1.evm_links ≡ s.evm_links)
      × ((Accounts.del_key o k s).1.evm_links ≡ s.evm_links)
unfolding Accounts.add_key Accounts.del_key
key-links o k s = (ground arith, ground arith)

dispatch_accounts-new :
    {L : Type 0} (w : World L) (sys : System) (now : ℕ) (o : Origin) (x : AccountsCall)
    (c : Sponsoring L) (a : AccountId) (e : H160)
    → (dispatch_accounts w sys now o x c).accounts.evm_links a ≡ some e
    → (c.accounts.evm_links a ≡ some e) ⊎ NewLink w o a e
unfolding dispatch_accounts NewLink
dispatch_accounts-new w sys now o (link_call signature) c a e p =
    elim (link-new w.host o signature c.accounts a e p) [
      | inl q ↦ inl q
      | inr (key, by, r, f) ↦ inr (signature, key, by, r, f)
    ]
dispatch_accounts-new w sys now o (unlink_call f) c a e p =
    inl (unlink-NoNewLink o f a e c.accounts p)
dispatch_accounts-new w sys now o (sponsor_account_call i) c a e p =
    inl (rw (sponsor_account-links w.host w.proxies now o i c) at p)
dispatch_accounts-new w sys now o (add_key_call k) c a e p =
    inl (rw (key-links o k c.accounts).0 at p)
dispatch_accounts-new w sys now o (del_key_call k) c a e p =
    inl (rw (key-links o k c.accounts).1 at p)
dispatch_accounts-new w sys now o (internal_lock_update_call d) c a e p =
    inl (internal_lock_update-NoNewLink w.host sys o d a e c.accounts p)

protos_end-links :
    (b : Protos.Chain) → (ProtosEnd.on_finalize b).accounts.evm_links ≡ b.accounts.evm_links
unfolding ProtosEnd.on_finalize
protos_end-links b = refl

module _ {L : Type 0} (w : World L) (a : AccountId) (e : H160) where
  abbrev LinkedIn : Chain L → Type 0
  LinkedIn c = c.base.accounts.evm_links a ≡ some e

  dispatch-new :
      (sys : System) (now : ℕ) (o : Origin) (x : RuntimeCall) (c : Chain L)
      → LinkedIn (dispatch w sys now o x c)
      → LinkedIn c ⊎ NewLink w o a e
  unfolding dispatch
  dispatch-new sys now o (protos_call x) c p = inl (
      subst (λ (s : AccountsTypes.State). s.evm_links a ≡ some e)
        (protos-SameOthers w.host sys o x c.base).0 p)
  dispatch-new sys now o (fragments_call x) c p = inl (
      subst (λ (b : Protos.Chain). b.accounts.evm_links a ≡ some e)
        (fragments-base w.host sys w.outside o x c) p)
  dispatch-new sys now o (detach_call x) c p = inl p
  dispatch-new sys now o (accounts_call x) c p = dispatch_accounts-new w sys now o x _ a e p

  unsigned-new :
      (sys : System) (now : ℕ) (x : RuntimeCall) (c : Chain L)
      → LinkedIn (dispatch w sys now none_origin x c)
      → LinkedIn c
  unfolding NewLink
  unsigned-new sys now x c p = elim (dispatch-new sys now none_origin x c p) [
    | inl q ↦ q
    | inr (signature, key, by, r, f) ↦ cc
  ]

  -- In a chain that starts without a link of an account, with checked calls or not, the account is
  -- linked to an Ethereum address only if it has signed a call, and a signature of the message that
  -- names the account recovers to the address.
  pub Reach-Agreement :
      (unchecked : Bool) (c d : Chain L)
      → c.base.accounts.evm_links a ≡ none
      → Reach w unchecked c d
      → d.base.accounts.evm_links a ≡ some e
      → Agreement w unchecked c a e
  unfolding NewLink signer
  Reach-Agreement unchecked c _ n here p = absurd (ground (arith, n, p))
  Reach-Agreement unchecked c _ n (next r (called sys now root x t q)) p =
      elim (dispatch-new sys now root x t p) [
        | inl u ↦ Reach-Agreement unchecked c t n r u
        | inr (signature, key, by, f, g) ↦ cc
      ]
  Reach-Agreement unchecked c _ n (next r (called sys now none_origin x t q)) p = absurd (q refl)
  Reach-Agreement unchecked c _ n (next r (called sys now (signed b) x t q)) p =
      elim (dispatch-new sys now (signed b) x t p) [
        | inl u ↦ Reach-Agreement unchecked c t n r u
        | inr (signature, key, by, f, g) ↦ record {
          before = t;
          after = dispatch w sys now (signed b) x t;
          reached = r;
          step = called sys now (signed b) x t q;
          caller = ground (arith, by);
          signature = signature;
          key = key;
          recovered = f;
          address = g;
        }
      ]
  Reach-Agreement unchecked c _ n (next r (lock_updated sys now d signature tag t q)) p =
      Reach-Agreement unchecked c t n r
        (unsigned-new sys now (accounts_call (internal_lock_update_call d)) t p)
  Reach-Agreement unchecked c _ n (next r (detach_finalized sys now d signature tag t q)) p =
      Reach-Agreement unchecked c t n r
        (unsigned-new sys now (detach_call (internal_finalize_detach_call d)) t p)
  Reach-Agreement unchecked c _ n (next r (overridden sys now x t u)) p =
      Reach-Agreement unchecked c t n r (unsigned-new sys now x t p)
  Reach-Agreement unchecked c _ n (next r (protos_finalized t)) p =
      Reach-Agreement unchecked c t n r (rw (protos_end-links t.base) at p)
  Reach-Agreement unchecked c _ n (next r (fragments_finalized b t)) p =
      Reach-Agreement unchecked c t n r p
  Reach-Agreement unchecked c _ n (next r (detach_finished t)) p =
      Reach-Agreement unchecked c t n r p
  Reach-Agreement unchecked c _ n (next r (worked g s ring t)) p =
      Reach-Agreement unchecked c t n r p
  Reach-Agreement unchecked c _ n (next r (elsewhere l t)) p = Reach-Agreement unchecked c t n r p

-- ===== src/Runtime/Consistency.antt =====
-- The invariants of the pallets together, which every step of the chain keeps.
use clamor.Protos.Types as Protos
use clamor.Protos.Atomic as ProtosCalls
use clamor.Protos.Stakes as ProtosEnd
use clamor.Protos.Runs as ProtosRuns
use clamor.Accounts.Runs as AccountsRuns
use clamor.Fragments.Types as FragmentsTypes
use clamor.Detach.Types as Detached
use clamor.Fragments.Runs as Fragments
use clamor.Exec.{Origin, none_origin}
use clamor.Runtime.Calls.{
  AccountsCall, link_call, unlink_call, sponsor_account_call, add_key_call, del_key_call,
  internal_lock_update_call, internal_finalize_detach_call, RuntimeCall, protos_call,
  fragments_call, detach_call, accounts_call, World, dispatch_accounts, dispatch,
}
use clamor.Runtime.Steps.{
  with_detach, Step, called, lock_updated, detach_finalized, overridden, protos_finalized,
  fragments_finalized, detach_finished, worked, elsewhere, Reach, Reach-keeps,
}
use clamor.Runtime.Parts.{protos-SameOthers, fragments-base}
use clamor.Accounts.Types.{ExternalId}
use clamor.Accounts.Links.{IsLinked, SameLinks-IsLinked}
use clamor.Accounts.Sponsor.{Proxies, Sponsoring, sponsor_account}
use clamor.Protos.References.{IsReferential, Grows}
use clamor.Protos.Referring.{dispatch-Grows, on_finalize-Grows}
use clamor.Protos.Clearing.{StakesListed, drop_unlinked-StakesListed}
use clamor.Protos.Staking.{dispatch-StakesListed}
use clamor.Protos.Index.{IsIndexed}
use clamor.Fragments.Types.{Chain}
use clamor.Fragments.Mirror.{IsMirrored}
use clamor.Fragments.Backing.{IsHeld}
use clamor.Fragments.Backed.{dispatch-Ties, on_finalize-IsHeld}
use clamor.Fragments.Definitions.{IsDefined}
use clamor.Fragments.Defining.{dispatch-IsDefined, on_finalize-IsDefined}
use clamor.Base.{ℕ, refl, sym, subst, Bool, arith}
use clamor.Host.{Host, System}

-- the links, the lists and references of Proto-Fragments, and the lists of stakes
pub record IsSound (b : Protos.Chain) : Type 0 where
  pub linked : IsLinked b.accounts
  pub indexed : IsIndexed b.protos
  pub referential : IsReferential b.protos
  pub staked : StakesListed b.protos

-- and the inventories and definitions of Fragments
pub record IsConsistent {L : Type 0} (c : Chain L) : Type 0 where
  pub base : IsSound c.base
  pub mirrored : IsMirrored c.fragments
  pub held : IsHeld c.fragments
  pub defined : IsDefined c.base.protos c.fragments

sponsor_account-IsLinked :
    {L : Type 0} (h : Host) (proxies : Proxies L) (now : ℕ) (o : Origin) (i : ExternalId)
    (c : Sponsoring L)
    → IsLinked c.accounts
    → IsLinked (sponsor_account h proxies now o i c).1.accounts
unfolding sponsor_account
sponsor_account-IsLinked h proxies now o i c v =
    SameLinks-IsLinked c.accounts _ (ground arith, ground arith, ground arith) v

dispatch_accounts-IsLinked :
    {L : Type 0} (w : World L) (sys : System) (now : ℕ) (o : Origin) (x : AccountsCall)
    (c : Sponsoring L)
    → IsLinked c.accounts
    → IsLinked (dispatch_accounts w sys now o x c).accounts
unfolding dispatch_accounts AccountsRuns.apply
dispatch_accounts-IsLinked w sys now o (link_call k) c v =
    AccountsRuns.apply-IsLinked w.host (AccountsRuns.link_call o k) c.accounts v
dispatch_accounts-IsLinked w sys now o (unlink_call e) c v =
    AccountsRuns.apply-IsLinked w.host (AccountsRuns.unlink_call o e) c.accounts v
dispatch_accounts-IsLinked w sys now o (sponsor_account_call i) c v =
    sponsor_account-IsLinked w.host w.proxies now o i c v
dispatch_accounts-IsLinked w sys now o (add_key_call k) c v =
    AccountsRuns.apply-IsLinked w.host (AccountsRuns.add_key_call o k) c.accounts v
dispatch_accounts-IsLinked w sys now o (del_key_call k) c v =
    AccountsRuns.apply-IsLinked w.host (AccountsRuns.del_key_call o k) c.accounts v
dispatch_accounts-IsLinked w sys now o (internal_lock_update_call d) c v =
    AccountsRuns.apply-IsLinked w.host (AccountsRuns.lock_update_call sys o d) c.accounts v

protos_call-IsSound :
    (h : Host) (sys : System) (o : Origin) (x : ProtosCalls.Extrinsic) (b : Protos.Chain)
    → IsSound b
    → IsSound (ProtosCalls.dispatch h sys o x b).1
protos_call-IsSound h sys o x b v = record {
  linked = subst IsLinked (sym (protos-SameOthers h sys o x b).0) v.linked;
  indexed = ProtosRuns.dispatch-IsIndexed h sys o x b v.indexed;
  referential = (dispatch-Grows h sys o x b v.referential).referential;
  staked = dispatch-StakesListed h sys o x b v.staked;
}

on_finalize-IsSound : (b : Protos.Chain) → IsSound b → IsSound (ProtosEnd.on_finalize b)
unfolding ProtosEnd.on_finalize
on_finalize-IsSound b v = record {
  linked = SameLinks-IsLinked b.accounts _ (refl, refl, refl) v.linked;
  indexed = ProtosRuns.on_finalize-IsIndexed b v.indexed;
  referential = (on_finalize-Grows b v.referential).referential;
  staked = drop_unlinked-StakesListed b.accounts.pending_unlinks b.protos v.staked;
}

-- definitions stay those of stored Proto-Fragments while these grow
Grows-IsDefined :
    (s t : Protos.State) (f : FragmentsTypes.State) → Grows s t → IsDefined s f → IsDefined t f
Grows-IsDefined s t f g v = record {
  listed = v.listed;
  protos = λ class d e. g.extends d.proto_hash (v.protos class d e);
  sales = v.sales;
  instances = v.instances;
}

module _ {L : Type 0} (w : World L) where
  dispatch-IsConsistent :
      (sys : System) (now : ℕ) (o : Origin) (x : RuntimeCall) (c : Chain L)
      → IsConsistent c
      → IsConsistent (dispatch w sys now o x c)
  unfolding dispatch
  dispatch-IsConsistent sys now o (protos_call x) c v = record {
    base = protos_call-IsSound w.host sys o x c.base v.base;
    mirrored = v.mirrored;
    held = v.held;
    defined =
        Grows-IsDefined c.base.protos _ c.fragments
          (dispatch-Grows w.host sys o x c.base v.base.referential) v.defined;
  }
  dispatch-IsConsistent sys now o (fragments_call x) c v =
      let same = fragments-base w.host sys w.outside o x c in
      record {
        base = subst IsSound (sym same) v.base;
        mirrored = Fragments.dispatch-IsMirrored w.host w.outside sys o x c v.mirrored;
        held = (dispatch-Ties w.host w.outside sys o x c).held v.held;
        defined =
            subst
              (λ (b : Protos.Chain).
                IsDefined b.protos (Fragments.dispatch w.host w.outside sys o x c).1.fragments)
              (sym same) (dispatch-IsDefined w.host w.outside sys o x c v.defined);
      }
  dispatch-IsConsistent sys now o (detach_call x) c v = record {
    base = record {
      linked = v.base.linked;
      indexed = v.base.indexed;
      referential = v.base.referential;
      staked = v.base.staked;
    };
    mirrored = v.mirrored;
    held = v.held;
    defined = v.defined;
  }
  dispatch-IsConsistent sys now o (accounts_call x) c v = record {
    base = record {
      linked = dispatch_accounts-IsLinked w sys now o x _ v.base.linked;
      indexed = v.base.indexed;
      referential = v.base.referential;
      staked = v.base.staked;
    };
    mirrored = v.mirrored;
    held = v.held;
    defined = v.defined;
  }

  with_detach-IsConsistent :
      (c : Chain L) (s : Detached.State) → IsConsistent c → IsConsistent (with_detach c s)
  with_detach-IsConsistent c s v = record {
    base = record {
      linked = v.base.linked;
      indexed = v.base.indexed;
      referential = v.base.referential;
      staked = v.base.staked;
    };
    mirrored = v.mirrored;
    held = v.held;
    defined = v.defined;
  }

  Step-IsConsistent :
      (unchecked : Bool) (c d : Chain L) → Step w unchecked c d → IsConsistent c → IsConsistent d
  Step-IsConsistent unchecked _ _ (called sys now o x c n) v = dispatch-IsConsistent sys now o x c v
  Step-IsConsistent unchecked _ _ (lock_updated sys now d signature tag c e) v =
      dispatch-IsConsistent sys now none_origin (accounts_call (internal_lock_update_call d)) c v
  Step-IsConsistent unchecked _ _ (detach_finalized sys now d signature tag c e) v =
      dispatch-IsConsistent sys now none_origin (detach_call (internal_finalize_detach_call d)) c v
  Step-IsConsistent unchecked _ _ (overridden sys now x c u) v =
      dispatch-IsConsistent sys now none_origin x c v
  Step-IsConsistent unchecked _ _ (protos_finalized c) v = record {
    base = on_finalize-IsSound c.base v.base;
    mirrored = v.mirrored;
    held = v.held;
    defined =
        Grows-IsDefined c.base.protos _ c.fragments (on_finalize-Grows c.base v.base.referential)
          v.defined;
  }
  Step-IsConsistent unchecked _ _ (fragments_finalized n c) v = record {
    base = v.base;
    mirrored = Fragments.on_finalize-IsMirrored w.host w.outside n c.fragments v.mirrored;
    held = on_finalize-IsHeld w.host w.outside n c.fragments v.held;
    defined = on_finalize-IsDefined w.host w.outside c.base.protos n c.fragments v.defined;
  }
  Step-IsConsistent unchecked _ _ (detach_finished c) v = with_detach-IsConsistent c _ v
  Step-IsConsistent unchecked _ _ (worked g k n c) v = with_detach-IsConsistent c _ v
  Step-IsConsistent unchecked _ _ (elsewhere l c) v = record {
    base = v.base;
    mirrored = v.mirrored;
    held = v.held;
    defined = v.defined;
  }

  -- Whatever a chain does, with checked calls or not, if the links agree, the lists of
  -- Proto-Fragments, stakes, inventories and definitions hold what they should, stored instances are in an inventory, and references,
  -- definitions, sales and instances are those of what is stored, then so it is afterwards.
  pub Reach-IsConsistent :
      (unchecked : Bool) (c d : Chain L) → IsConsistent c → Reach w unchecked c d → IsConsistent d
  Reach-IsConsistent unchecked c d v r =
      Reach-keeps w unchecked IsConsistent (Step-IsConsistent unchecked) r v

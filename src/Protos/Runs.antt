-- ===== src/Protos/Runs.antt =====
-- Sequences of calls of the pallet, in any order, failing or not, with the ends of blocks between
-- them.
use clamor.Exec.{Origin, remove, items}
use clamor.Protos.Types.{Chain, State, owner_eq}
use clamor.Protos.Calls.{detach}
use clamor.Protos.Stakes.{stake, unstake, on_finalize, drop_stakes, drop_unlinked}
use clamor.Protos.Index.{
  IsIndexed, write_transfer-IsIndexed, write_patch-IsIndexed, write_upload-IsIndexed, SameIndex,
  write_metadata-IsIndexed, SameIndex-IsIndexed,
}
use clamor.Protos.Effects.{current}
use clamor.Protos.Atomic.{Extrinsic, dispatch}
use clamor.Detach.Types.{SupportedChains, chain_eq}
use clamor.Accounts.Types.{external_id_eq}
use clamor.Protos.Keeps.{dispatch-keeps}
use clamor.Base.{List, [], ◌∷◌, arith, refl, ◌∙◌, nat_eq, bytes_eq, pair_eq}
use clamor.Host.{Bytes, AccountId, Hash256, Balance, Host, System}

-- What a chain does: a call in a block, or the end of a block.
pub data Action : Type 0 where
  call : System → Origin → Extrinsic → Action
  block_end : Action

unfoldable pub apply : Host → Action → Chain → Chain
apply h (call sys o x) c = (dispatch h sys o x c).1
apply h block_end c = on_finalize c

unfoldable pub run : Host → List Action → Chain → Chain
run h [] c = c
run h (x ∷ xs) c = run h xs (apply h x c)

pub stake-SameIndex :
    (h : Host) (sys : System) (o : Origin) (k : Hash256) (amount : Balance) (c : Chain)
    → SameIndex c.protos (stake h sys o k amount c).1.protos
unfolding stake
stake-SameIndex h sys o k amount c = ground arith

pub unstake-SameIndex :
    (h : Host) (sys : System) (o : Origin) (k : Hash256) (c : Chain)
    → SameIndex c.protos (unstake h sys o k c).1.protos
unfolding unstake
unstake-SameIndex h sys o k c = ground arith

pub detach-SameIndex :
    (o : Origin) (k : Hash256) (chain : SupportedChains) (target : Bytes) (c : Chain)
    → SameIndex c.protos (detach o k chain target c).1.protos
unfolding detach
detach-SameIndex o k chain target c = ground arith

drop_stakes-SameIndex :
    (a : AccountId) (ks : List Hash256) (s : State) → SameIndex s (drop_stakes a ks s)
unfolding drop_stakes
drop_stakes-SameIndex a [] s = (refl, refl, refl)
drop_stakes-SameIndex a (k ∷ ks) s = drop_stakes-SameIndex a ks _

pub drop_unlinked-SameIndex :
    (accounts : List AccountId) (s : State) → SameIndex s (drop_unlinked accounts s)
unfolding drop_unlinked
drop_unlinked-SameIndex [] s = (refl, refl, refl)
drop_unlinked-SameIndex (a ∷ accounts) s =
    let t =
      drop_stakes a (items s.account_stakes a)
        (record s { account_stakes = remove s.account_stakes a }) in
    let (p, q, r) = drop_unlinked-SameIndex accounts t in
    let (p₁, q₁, r₁) =
      drop_stakes-SameIndex a (items s.account_stakes a)
        (record s { account_stakes = remove s.account_stakes a }) in
    (p ∙ p₁, q ∙ q₁, r ∙ r₁)

pub dispatch-IsIndexed :
    (h : Host) (sys : System) (o : Origin) (x : Extrinsic) (c : Chain)
    → IsIndexed c.protos
    → IsIndexed (dispatch h sys o x c).1.protos
dispatch-IsIndexed h sys o x c v =
    dispatch-keeps h sys (λ (d : Chain). IsIndexed d.protos) o x c v
      (record {
        uploads = λ a references category tags asset cost bytes new _.
            write_upload-IsIndexed h sys (current sys) a references category tags asset cost bytes
              c.protos new v;
        patches = λ a k cost references tags bytes p _ e _ _.
            write_patch-IsIndexed h sys (current sys) k cost references tags bytes p c.protos e v;
        transfers = λ a k b p _ e _. write_transfer-IsIndexed k p b c.protos e v;
        sets_metadata = λ a k key bytes _ w.
            write_metadata-IsIndexed h (current sys) k key bytes w.proto c.protos w.stored v;
        detaches =
            λ o k chain target. SameIndex-IsIndexed _ _ (detach-SameIndex o k chain target c) v;
        stakes = λ o k amount. SameIndex-IsIndexed _ _ (stake-SameIndex h sys o k amount c) v;
        unstakes = λ o k. SameIndex-IsIndexed _ _ (unstake-SameIndex h sys o k c) v;
      })

pub on_finalize-IsIndexed : (c : Chain) → IsIndexed c.protos → IsIndexed (on_finalize c).protos
unfolding on_finalize
on_finalize-IsIndexed c v =
    SameIndex-IsIndexed c.protos _ (drop_unlinked-SameIndex c.accounts.pending_unlinks c.protos) v

-- Whatever calls are made and blocks end, if each list by owner and by category holds each
-- Proto-Fragment as often as it belongs there, once or not at all, then so it is afterwards.
pub run-IsIndexed :
    (h : Host) (xs : List Action) (c : Chain) → IsIndexed c.protos → IsIndexed (run h xs c).protos
unfolding run apply
run-IsIndexed h [] c v = v
run-IsIndexed h (call sys o x ∷ xs) c v =
    run-IsIndexed h xs (dispatch h sys o x c).1 (dispatch-IsIndexed h sys o x c v)
run-IsIndexed h (block_end ∷ xs) c v =
    run-IsIndexed h xs (on_finalize c) (on_finalize-IsIndexed c v)

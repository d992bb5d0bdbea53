-- ===== src/Protos/Authority.antt =====
-- A stored Proto-Fragment is changed by nobody but its owner.
use clamor.Exec.{Origin, signed}
use clamor.Protos.Types.{Proto, State, Chain, owner_eq}
use clamor.Protos.Keeps.{dispatch-keeps}
use clamor.Protos.References.{WritesAt, write_transfer-WritesAt, write_metadata-WritesAt}
use clamor.Protos.Referring.{write_upload-WritesAt, write_patch-WritesAt}
use clamor.Protos.Effects.{current, Controls}
use clamor.Protos.Atomic.{Extrinsic, dispatch}
use clamor.Protos.Runs.{stake-SameIndex, unstake-SameIndex, detach-SameIndex}
use clamor.Detach.Types.{chain_eq}
use clamor.Base.{
  ◌≡◌, subst, inl, inr, some, arith, Bool-cases, ◌==◌, ==_iff, nat_eq, bytes_eq, pair_eq,
}
use clamor.Host.{AccountId, Hash256, Host, System}

-- `k` is stored as `p`, or the origin is the account that controls `k`
pub data ByOwner (o : Origin) (k : Hash256) (p : Proto) (c d : Chain) : Type 0 where
  untouched : d.protos.protos k ≡ some p → ByOwner o k p c d
  by_owner : (a : AccountId) → o ≡ signed a → Controls c a k → ByOwner o k p c d

-- what is written at `j` for its owner
at_own :
    (o : Origin) (k j : Hash256) (p q : Proto) (a : AccountId) (c : Chain) (t : State)
    → c.protos.protos k ≡ some p
    → o ≡ signed a
    → Controls c a j
    → WritesAt j q c.protos t
    → ByOwner o k p c (record c { protos = t })
at_own o k j p q a c t e s w written = elim (Bool-cases (j == k)) [
  | inl same ↦ by_owner a s (subst (Controls c a) (ground (arith, ==_iff j k, same)) w)
  | inr other ↦ untouched (ground (arith, written k, other, e))
]

kept :
    (o : Origin) (k : Hash256) (p : Proto) (c d : Chain)
    → c.protos.protos k ≡ some p
    → d.protos.protos ≡ c.protos.protos
    → ByOwner o k p c d
kept o k p c d e same = untouched (rw same e)

pub dispatch-ByOwner :
    (h : Host) (sys : System) (o : Origin) (x : Extrinsic) (c : Chain) (k : Hash256) (p : Proto)
    → c.protos.protos k ≡ some p
    → ByOwner o k p c (dispatch h sys o x c).1
dispatch-ByOwner h sys o x c k p e =
    dispatch-keeps h sys (ByOwner o k p c) o x c (untouched e) (record {
      uploads = λ a refs category tags asset cost bytes new _. untouched (
          ground (
            arith,
            e,
            new,
            ==_iff (h.blake2_256 bytes) k,
            write_upload-WritesAt h sys (current sys) a refs category tags asset cost bytes c.protos
                k,
          ));
      patches = λ a j cost refs tags bytes q s f w _.
          at_own o k j p _ a c _ e s w
            (write_patch-WritesAt h sys (current sys) j cost refs tags bytes q c.protos);
      transfers = λ a j b q s f w.
          at_own o k j p _ a c _ e s w (write_transfer-WritesAt j q.owner b q c.protos f);
      sets_metadata = λ a j key bytes s w.
          at_own o k j p _ a c _ e s w
            (write_metadata-WritesAt h (current sys) j key bytes w.proto c.protos w.stored);
      detaches = λ b j chain target. kept o k p c _ e (detach-SameIndex b j chain target c).0;
      stakes = λ b j amount. kept o k p c _ e (stake-SameIndex h sys b j amount c).0;
      unstakes = λ b j. kept o k p c _ e (unstake-SameIndex h sys b j c).0;
    })

-- ===== src/Fragments/Untouched.antt =====
-- The calls that touch neither an instance nor who holds it.
use clamor.Exec.{Origin}
use clamor.Fragments.Types.{Edition, FragmentPerms, FragmentMetadata, UniqueOptions, State, Chain}
use clamor.Fragments.Calls.{create, publish, unpublish, create_account}
use clamor.Base.{ℕ, ◌≡◌, Option, arith}
use clamor.Host.{Hash256, Hash128, BlockNumber, Host, System, Currencies}

abbrev pub SameInstances : State → State → Type 0
SameInstances s t =
    (t.owners ≡ s.owners)
    × (t.inventory ≡ s.inventory)
    × (t.fragments ≡ s.fragments)
    × (t.editions_count ≡ s.editions_count)
    × (t.copies_count ≡ s.copies_count)

module _ {L : Type 0} where
  pub create-SameInstances :
      (h : Host) (currencies : Currencies L) (sys : System) (o : Origin) (k : Hash256)
      (m : FragmentMetadata) (p : FragmentPerms) (u : Option UniqueOptions) (max : Option Edition)
      (c : Chain L)
      → SameInstances c.fragments (create h currencies sys o k m p u max c).1.fragments
  unfolding create
  create-SameInstances h currencies sys o k m p u max c = ground arith

  pub publish-SameInstances :
      (o : Origin) (class : Hash128) (price : ℕ) (units : Option Edition)
      (expires : Option BlockNumber) (amount : Option Edition) (c : Chain L)
      → SameInstances c.fragments (publish o class price units expires amount c).1.fragments
  unfolding publish
  publish-SameInstances o class price units expires amount c = ground arith

  pub unpublish-SameInstances :
      (o : Origin) (class : Hash128) (c : Chain L)
      → SameInstances c.fragments (unpublish o class c).1.fragments
  unfolding unpublish
  unpublish-SameInstances o class c = ground arith

  pub create_account-SameInstances :
      (h : Host) (currencies : Currencies L) (o : Origin) (class : Hash128) (e copy : Edition)
      (c : Chain L)
      → SameInstances c.fragments (create_account h currencies o class e copy c).1.fragments
  unfolding create_account
  create_account-SameInstances h currencies o class e copy c = ground arith
